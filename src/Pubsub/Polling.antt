-- ===== src/Pubsub/Polling.antt =====
-- `poll_next` as the steps that the task takes, with the signals that come in between.
use apalis_redis.Prelude.{
  ℕ, ◌≡◌, refl, inl, inr, Bool, true, false, List, [], ◌∷◌, ◌∙◌, if◌then◌else◌, Bool-cases,
}
use apalis_redis.Pubsub.{AtomicWaker, Poll, ready, pending, Inner, store, swap, poll_amid}
use apalis_redis.Pubsub.Wakeups.{
  Place, away, checked, parked, State, Step, first_ready, first_empty, registers, second_ready,
  second_empty, stores, wakes, Idle, registering, waking,
}

module _ (A : AtomicWaker) (k : ℕ) where
  abbrev place_of : Poll → Place
  place_of ready = away
  place_of pending = parked

  pub data Steps (s : State A k) : State A k → Type 0 where
    none_yet : Steps s s
    and_then : {t u : State A k} → Steps s t → Step A k t u → Steps s u

  -- The operations of the signals: one that cannot be done, as no signal is there to do it or the
  -- last has not woken the task yet, is passed over.
  pub data Operation : Type 0 where
    storing awakening : Operation

  unfoldable pub act : Operation → State A k → State A k
  act storing s =
      if s.signalling then s else record s { inner = store A s.inner; signalling = true }
  act awakening s = if s.signalling then waking A k s else s

  unfoldable pub act_all : List Operation → State A k → State A k
  act_all [] s = s
  act_all (o ∷ os) s = act_all os (act o s)

  -- What the operations make of the shared state.
  abbrev pub acted : List Operation → State A k → Inner A → Inner A
  acted os s i = (act_all os (record s { inner = i })).inner

  -- The task's state after its first look at the flag, if that was unset, and after it has registered.
  abbrev pub looked : State A k → State A k
  looked s = record s { inner = (swap A s.inner).1; place = checked; notified = false }

  abbrev pub armed_after : List Operation → State A k → State A k
  armed_after before s = registering A k (act_all before (looked s))

  abbrev pub poll_during : List Operation → List Operation → State A k → Poll × Inner A
  poll_during before after s =
      poll_amid A (acted before (looked s)) (acted after (armed_after before s)) k s.inner

  -- The state once the task has polled, with these operations of the signals in between.
  unfoldable pub polled : List Operation → List Operation → State A k → State A k
  polled before after s =
      let (poll, inner) = poll_during before after s in
      if (swap A s.inner).0
      then record s { inner = inner; place = place_of poll; notified = false }
      else record (act_all after (armed_after before s)) { inner = inner; place = place_of poll }

  joined : {s t u : State A k} → Steps s t → Steps t u → Steps s u
  joined p none_yet = p
  joined p (and_then q e) = and_then (joined p q) e

  act-Steps : (o : Operation) (s : State A k) → Steps s (act o s) × ((act o s).place ≡ s.place)
  unfolding act waking
  act-Steps storing s = elim (Bool-cases s.signalling) [
    | inl e ↦ rw e (none_yet, refl)
    | inr e ↦ rw e (and_then none_yet (stores refl), refl)
  ]
  act-Steps awakening s = elim (Bool-cases s.signalling) [
    | inl e ↦ rw e (and_then none_yet (wakes refl), refl)
    | inr e ↦ rw e (none_yet, refl)
  ]

  act_all-Steps :
      (os : List Operation) (s : State A k)
      → Steps s (act_all os s) × ((act_all os s).place ≡ s.place)
  unfolding act_all
  act_all-Steps [] s = (none_yet, refl)
  act_all-Steps (o ∷ os) s =
      let (p, e) = act-Steps o s in let (q, f) = act_all-Steps os (act o s) in (joined p q, f ∙ e)

  abbrev state_of : A.Cell → Bool → Place → Bool → Bool → State A k
  state_of cell set p n g = record {
    inner = record { waker = cell; set = set };
    place = p;
    notified = n;
    signalling = g;
  }

  polls_from :
      (before after : List Operation) (cell : A.Cell) (set : Bool) (p : Place) (n g : Bool)
      → Idle A k p
      → Steps (state_of cell set p n g) (polled before after (state_of cell set p n g))
  unfolding polled poll_amid swap registering
  polls_from before after cell true p n g i = and_then none_yet (first_ready i refl)
  polls_from before after cell false p n g i =
      let s = state_of cell false p n g in
      let t = armed_after before s in
      let u = act_all after t in
      let (to_checked, at_checked) = act_all-Steps before (looked s) in
      let (to_looking, at_registered) = act_all-Steps after t in
      let looking : Steps s u =
        joined
          (and_then (joined (and_then none_yet (first_empty i refl)) to_checked)
            (registers at_checked))
          to_looking in
      elim (Bool-cases u.inner.set) [
        | inl f ↦ rw f (and_then looking (second_ready at_registered f))
        | inr f ↦ rw f (and_then looking (second_empty at_registered f))
      ]

  -- The steps are those of the code: from a state in which the task is not polling, a run of
  -- `poll_next`, with any operations of signals between its first look at the flag, the registration
  -- of its waker and its second look, is a sequence of the steps, to the same result and shared state.
  pub poll_amid-Steps :
      (before after : List Operation) (s : State A k)
      → Idle A k s.place
      → Steps s (polled before after s)
  poll_amid-Steps before after s i =
      polls_from before after s.inner.waker s.inner.set s.place s.notified s.signalling i
