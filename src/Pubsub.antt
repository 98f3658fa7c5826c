-- ===== src/Pubsub.antt =====
-- `Pubsub` of src/factory.rs: the stream by which a message of the server wakes a worker. The task
-- that polls it and the thread that signals it run at once; the steps are their atomic operations.
pub mod Wakeups
pub mod Polling
use apalis_redis.Prelude.{ℕ, ◌≡◌, Bool, true, false, ◌||◌, Option, none, some}

-- `futures::task::AtomicWaker`: it keeps the waker that was registered last, and `wake` takes it out
-- and wakes it. The wakers are numbered.
pub record AtomicWaker : Type 1 where
  pub Cell : Type 0
  pub new : Cell
  pub current : Cell → Option ℕ
  pub register : ℕ → Cell → Cell
  pub wake : Cell → Option ℕ × Cell
  pub current-new : current new ≡ none
  pub current-register : (k : ℕ) (a : Cell) → current (register k a) ≡ some k
  pub current-wake : (a : Cell) → current (wake a).1 ≡ none
  pub wake_reply : (a : Cell) → (wake a).0 ≡ current a

-- `Poll<Option<()>>`; the stream never ends.
pub data Poll : Type 0 where
  ready pending : Poll

module _ (A : AtomicWaker) where
  pub record Inner : Type 0 where
    pub waker : A.Cell
    pub set : Bool

  unfoldable pub new : Inner
  new = record { waker = A.new; set = false }

  -- The atomic operations of `signal`: `set.store(true)` and `waker.wake()`.
  unfoldable pub store : Inner → Inner
  store s = record s { set = true }

  unfoldable pub wake : Inner → Option ℕ × Inner
  wake s = let (woken, cell) = A.wake s.waker in (woken, record s { waker = cell })

  -- What `signal` wakes and leaves.
  unfoldable pub signal : Inner → Option ℕ × Inner
  signal s = wake (store s)

  -- The atomic operations of `poll_next`: `set.swap(false)` and `waker.register(cx.waker())`.
  unfoldable pub swap : Inner → Bool × Inner
  swap s = (s.set, record s { set = false })

  unfoldable pub register : ℕ → Inner → Inner
  register k s = record s { waker = A.register k s.waker }

  -- `poll_next`, where the threads that signal may act on the shared state between its operations:
  -- `before` is what they do before the waker is registered, `after` what they do then.
  unfoldable pub poll_amid : (before after : Inner → Inner) → ℕ → Inner → Poll × Inner
  poll_amid before after k s = consumed (swap s)
    where
      again : Bool × Inner → Poll × Inner
      again (true, s) = (ready, s)
      again (false, s) = (pending, s)

      consumed : Bool × Inner → Poll × Inner
      consumed (true, s) = (ready, s)
      consumed (false, s) = again (swap (after (register k (before s))))

  -- `poll_next` with no signal meanwhile.
  abbrev pub poll_next : ℕ → Inner → Poll × Inner
  poll_next k s = poll_amid (λ i. i) (λ i. i) k s
