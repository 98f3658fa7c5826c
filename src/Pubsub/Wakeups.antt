-- ===== src/Pubsub/Wakeups.antt =====
-- Every interleaving of a task that polls a `Pubsub` with the signals of the server's messages.
use apalis_redis.Prelude.{
  ℕ, ◌≡◌, refl, ◌⊎◌, inl, inr, Bool, true, false, Option, none, some, ◌==◌, arith, if◌then◌else◌,
  Bool-cases,
}
use apalis_redis.Pubsub.{AtomicWaker, Inner, new, store, wake, swap, register}

-- Where the polling task is: not polling, between the operations of `poll_next`, or back with
-- `Poll::Pending`, waiting to be woken.
pub data Place : Type 0 where
  away checked registered parked : Place

module _ (A : AtomicWaker) (k : ℕ) where
  -- `notified`: the task was woken since it last began to poll. `signalling`: a signal has stored its
  -- flag and not yet woken the task; the registry's lock admits one signal at a time.
  pub record State : Type 0 where
    pub inner : Inner A
    pub place : Place
    pub notified : Bool
    pub signalling : Bool

  abbrev pub initial : State
  initial = record { inner = new A; place = away; notified = false; signalling = false }

  -- Whether a wake reached the task with waker `k`.
  unfoldable pub reaches : Option ℕ → Bool
  reaches none = false
  reaches (some w) = w == k

  -- The task polls anew, whether it was woken or not.
  pub data Idle : Place → Type 0 where
    is_away : Idle away
    is_parked : Idle parked

  -- The task registers its waker, and a signal wakes the task.
  unfoldable pub registering : State → State
  registering s = record s { inner = register A k s.inner; place = registered }

  unfoldable pub waking : State → State
  waking s = record s {
    inner = (wake A s.inner).1;
    notified = if s.notified then true else reaches (wake A s.inner).0;
    signalling = false;
  }

  pub data Step (s : State) : State → Type 0 where
    first_ready :
        Idle s.place
        → (swap A s.inner).0 ≡ true
        → Step s (record s { inner = (swap A s.inner).1; place = away; notified = false })
    first_empty :
        Idle s.place
        → (swap A s.inner).0 ≡ false
        → Step s (record s { inner = (swap A s.inner).1; place = checked; notified = false })
    registers : s.place ≡ checked → Step s (registering s)
    second_ready :
        s.place ≡ registered
        → (swap A s.inner).0 ≡ true
        → Step s (record s { inner = (swap A s.inner).1; place = away })
    second_empty :
        s.place ≡ registered
        → (swap A s.inner).0 ≡ false
        → Step s (record s { inner = (swap A s.inner).1; place = parked })
    stores : s.signalling ≡ false → Step s (record s { inner = store A s.inner; signalling = true })
    wakes : s.signalling ≡ true → Step s (waking s)

  pub data Reachable : State → Type 0 where
    start : Reachable initial
    further : {s t : State} → Reachable s → Step s t → Reachable t

  -- Whether the task is past the registering of its waker.
  abbrev is_watching : Place → Bool
  is_watching away = false
  is_watching checked = false
  is_watching registered = true
  is_watching parked = true

  -- What holds while the task has registered its waker and was not woken.
  record Watched (s : State) : Type 0 where
    armed : is_watching s.place ≡ true → s.notified ≡ false → A.current s.inner.waker ≡ some k
    covered : s.place ≡ parked → s.notified ≡ false → s.inner.set ≡ true → s.signalling ≡ true

  reached : (cell : A.Cell) → A.current cell ≡ some k → reaches (A.wake cell).0 ≡ true
  unfolding reaches
  reached cell e = rw (A.wake_reply cell, e) (ground arith)

  or_true : (b c : Bool) → (b ≡ false → c ≡ true) → (if b then true else c) ≡ true
  or_true true c h = refl
  or_true false c h = h refl

  -- Once the task has registered, a wake reaches it.
  noticed :
      (s : State)
      → Watched s
      → is_watching s.place ≡ true
      → (if s.notified then true else reaches (A.wake s.inner.waker).0) ≡ true
  noticed s w h = or_true s.notified _ (λ n. reached s.inner.waker (w.armed h n))

  Step-Watched : {s t : State} → Step s t → Watched s → Watched t
  unfolding swap register store wake registering waking
  Step-Watched (first_ready i e) w = record { armed = λ h. cc; covered = λ h. cc }
  Step-Watched (first_empty i e) w = record { armed = λ h. cc; covered = λ h. cc }
  Step-Watched {s = s} (registers e) w = record {
    armed = λ h n. A.current-register k s.inner.waker;
    covered = λ h. cc;
  }
  Step-Watched (second_ready e f) w = record { armed = λ h. cc; covered = λ h. cc }
  Step-Watched (second_empty e f) w = record {
    armed = λ h n. w.armed (rw e refl) n;
    covered = λ h n i. cc;
  }
  Step-Watched (stores e) w = record { armed = w.armed; covered = λ h n i. refl }
  Step-Watched {s = s} (wakes e) w = record {
    armed = λ h n. cc (noticed s w h, n);
    covered = λ h n. cc (noticed s w (rw h refl), n);
  }

  Reachable-Watched : {s : State} → Reachable s → Watched s
  Reachable-Watched start = record { armed = λ h. cc; covered = λ h. cc }
  Reachable-Watched (further r e) = Step-Watched e (Reachable-Watched r)

  -- No wakeup is lost: whatever the interleaving of polls and signals, a task that is back with
  -- `Poll::Pending` while the flag is set has been woken, or the signal that set the flag has still
  -- to wake it.
  pub parked-noticed :
      {s : State}
      → Reachable s
      → s.place ≡ parked
      → s.inner.set ≡ true
      → (s.notified ≡ true) ⊎ (s.signalling ≡ true)
  parked-noticed {s = s} r h e = elim (Bool-cases s.notified) [
    | inl n ↦ inl n
    | inr n ↦ inr ((Reachable-Watched r).covered h n e)
  ]

  -- That the stream will return `Poll::Ready`: at the first or the second look at the flag, where a
  -- task that waits polls only when woken, after the steps that the task or the signal is about to do.
  pub data Delivers : State → Type 0 where
    first :
        {s : State}
        → Idle s.place
        → (s.place ≡ parked → s.notified ≡ true)
        → (swap A s.inner).0 ≡ true
        → Delivers s
    second : {s : State} → s.place ≡ registered → (swap A s.inner).0 ≡ true → Delivers s
    after_register : {s : State} → s.place ≡ checked → Delivers (registering s) → Delivers s
    after_wake : {s : State} → s.signalling ≡ true → Delivers (waking s) → Delivers s

  delivers_from :
      (s : State) (p : Place) → s.place ≡ p → Reachable s → s.inner.set ≡ true → Delivers s
  unfolding swap register wake registering waking
  delivers_from s away h r e = first (rw h is_away) (λ q. cc) e
  delivers_from s checked h r e = after_register h (second refl e)
  delivers_from s registered h r e = second h e
  delivers_from s parked h r e = elim (Bool-cases s.notified) [
    | inl n ↦ first (rw h is_parked) (λ q. n) e
    | inr n ↦
        after_wake ((Reachable-Watched r).covered h n e)
          (first (rw h is_parked) (λ q. noticed s (Reachable-Watched r) (rw h refl)) e)
  ]

  -- A notification is delivered: in every reachable state with the flag set, the stream returns
  -- `Poll::Ready` after at most one more step of the polling task or the wake that the signal has
  -- still to do.
  pub Reachable-Delivers : {s : State} → Reachable s → s.inner.set ≡ true → Delivers s
  Reachable-Delivers {s = s} r e = delivers_from s s.place refl r e
