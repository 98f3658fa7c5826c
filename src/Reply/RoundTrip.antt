-- ===== src/Reply/RoundTrip.antt =====
-- What the fetching scripts reply with is decoded to the task that the server holds.
use apalis_redis.Prelude.{
  ℕ, suc, ◌^◌, ◌≡◌, refl, ◌⊎◌, inl, inr, sym, ◌∙◌, ap, true, none, some, List, [], ◌∷◌, Text, bytes,
  text_dec, ◌==◌, length, if◌then◌else◌, All, arith, Bool-cases,
}
use apalis_redis.Prelude.Assoc.{
  lookup, insert, insert_all, contains, IsMap, lookup-insert_all, lookup-erase, erase_all,
  lookup-erase_all,
}
use apalis_redis.Script.{Result, ok, err}
use apalis_redis.Reply.{
  Value, Values, bulk_string, array, server_error, other, nil, cons, elements, CompactTask, Core,
  is_utf8, parse_below, str_from_val, collect, is_even, entries, bulk, non_empty, locked_at,
  from_meta, from_fields, decode, decode_all, deserialize_with_meta,
}

pub Result-cases :
    {E A : Type 0} (r : Result E A) → ((a : A) × (r ≡ ok a)) ⊎ ((e : E) × (r ≡ err e))
Result-cases (ok a) = inl (a, refl)
Result-cases (err e) = inr (e, refl)

ok-injective : {E A : Type 0} {a b : A} → ◌≡◌ {A = Result E A} (ok a) (ok b) → a ≡ b
ok-injective h = cc

-- The fields and values of a hash in a row, as HGETALL replies.
abbrev pub flat : List (Text × Text) → Values
flat [] = nil
flat ((k, v) ∷ m) = cons (bulk_string k) (cons (bulk_string v) (flat m))

abbrev pub IsText : Text × Text → Type 0
IsText (k, v) = (is_utf8 k ≡ true) × (is_utf8 v ≡ true)

collect-flat :
    (m acc : List (Text × Text))
    → All IsText m
    → collect (elements (flat m)) acc ≡ ok (insert_all m acc)
unfolding collect elements insert_all str_from_val
collect-flat [] acc h = refl
collect-flat ((k, v) ∷ m) acc h = rw (h.0.0, h.0.1) (collect-flat m (insert k v acc) h.1)

even-flat : (m : List (Text × Text)) → is_even (length (elements (flat m))) ≡ true
unfolding is_even elements
even-flat [] = refl
even-flat ((k, v) ∷ m) = rw (even-flat m)

-- The fields that `CompactTask` has places of its own for.
abbrev pub reserved : List Text
reserved =
    bytes "attempts"
    ∷ bytes "max_attempts"
    ∷ bytes "status"
    ∷ bytes "idempotency_key"
    ∷ bytes "locked_by"
    ∷ bytes "locked_at"
    ∷ []

module _ (core : Core) where
  from_meta-ok :
      (payload tid a x s status : Text) (attempts max_attempts : ℕ) (m : List (Text × Text))
      → lookup (bytes "attempts") m ≡ some a
      → parse_below (2 ^ 32) a ≡ some attempts
      → lookup (bytes "max_attempts") m ≡ some x
      → parse_below (2 ^ 32) x ≡ some max_attempts
      → lookup (bytes "status") m ≡ some s
      → core.status_from_str s ≡ some status
      → from_meta core payload tid m
        ≡ ok (record {
          args = payload;
          attempts = attempts;
          max_attempts = max_attempts;
          status = status;
          task_id = tid;
          idempotency_key = non_empty (lookup (bytes "idempotency_key") m);
          meta = erase_all reserved m;
          lock_by = lookup (bytes "locked_by") m;
          lock_at = locked_at (lookup (bytes "locked_at") m);
        })
  unfolding from_meta text_dec erase_all
  from_meta-ok payload tid a x s status attempts max_attempts m ha pa hx px hs ps =
      simp (lookup-erase, ha, pa, hx, px, hs, ps)

  decode-flat :
      (payload id tid : Text) (m : List (Text × Text))
      → is_utf8 id ≡ true
      → core.task_id_from_str id ≡ some tid
      → All IsText m
      → decode core (bulk_string payload) (array (cons (bulk_string id) (flat m)))
        ≡ from_meta core payload tid (insert_all m [])
  unfolding decode from_fields bulk entries elements str_from_val
  decode-flat payload id tid m u e h = rw (u, e, even-flat m, collect-flat m [] h)

  -- A task's reply is decoded to the data, the id and the fields that the server holds for it,
  -- whatever order the server lists the fields in: the counters are read as 32-bit numbers, an empty
  -- idempotency key counts as none, a lock time that is no number as 0, and every field that has no
  -- place of its own stays in the task's metadata.
  pub decode-reply :
      (payload id tid a x s status k : Text) (attempts max_attempts : ℕ) (m : List (Text × Text))
      → is_utf8 id ≡ true
      → core.task_id_from_str id ≡ some tid
      → All IsText m
      → IsMap m
      → lookup (bytes "attempts") m ≡ some a
      → parse_below (2 ^ 32) a ≡ some attempts
      → lookup (bytes "max_attempts") m ≡ some x
      → parse_below (2 ^ 32) x ≡ some max_attempts
      → lookup (bytes "status") m ≡ some s
      → core.status_from_str s ≡ some status
      → (t : CompactTask) × (decode core
            (bulk_string payload)
            (array (cons (bulk_string id) (flat m)))
          ≡ ok t)
        × (t.args ≡ payload)
        × (t.task_id ≡ tid)
        × (t.attempts ≡ attempts)
        × (t.max_attempts ≡ max_attempts)
        × (t.status ≡ status)
        × (t.idempotency_key ≡ non_empty (lookup (bytes "idempotency_key") m))
        × (t.lock_by ≡ lookup (bytes "locked_by") m)
        × (t.lock_at ≡ locked_at (lookup (bytes "locked_at") m))
        × (lookup k t.meta ≡ (if contains k reserved then none else lookup k m))
  decode-reply payload id tid a x s status k attempts max_attempts m u e h im ha pa hx px hs ps =
      let same = λ (f : Text). lookup-insert_all f m im in
      (
        _,
        decode-flat payload id tid m u e h
            ∙ from_meta-ok payload tid a x s status attempts max_attempts (insert_all m [])
                (same (bytes "attempts") ∙ ha) pa (same (bytes "max_attempts") ∙ hx) px
                (same (bytes "status") ∙ hs) ps,
        refl,
        refl,
        refl,
        refl,
        refl,
        ap non_empty (same (bytes "idempotency_key")),
        same (bytes "locked_by"),
        ap locked_at (same (bytes "locked_at")),
        lookup-erase_all k reserved (insert_all m [])
            ∙ ap (λ o. if contains k reserved then none else o) (same k),
      )

  decode_all-length :
      (vs ms : List Value) {ts : List CompactTask}
      → decode_all core vs ms ≡ ok ts
      → length vs ≡ length ms
      → length ts ≡ length vs
  unfolding decode_all
  decode_all-length [] ms h e = ap length (sym (ok-injective h))
  decode_all-length (v ∷ vs) [] h e = absurd (omega arith)
  decode_all-length (v ∷ vs) (m ∷ ms) h e = elim (Result-cases (decode core v m)) [
    | inr (x, f) ↦ cc (rw f at h)
    | inl (t, f) ↦ elim (Result-cases (decode_all core vs ms)) [
      | inr (x, g) ↦ cc (rw (f, g) at h)
      | inl (rest, g) ↦
          ap length (sym (ok-injective (rw (f, g) at h)))
          ∙ ap suc (decode_all-length vs ms g (omega arith))
    ]
  ]

  -- A reply is decoded only if both its parts are arrays of one length, and then to one task for
  -- each entry; two arrays of different lengths are refused.
  pub deserialize_with_meta-length :
      (v m : Value) (ts : List CompactTask)
      → deserialize_with_meta core (v ∷ m ∷ []) ≡ ok ts
      → (vs ms : Values) × (v ≡ array vs)
        × (m ≡ array ms)
        × (length (elements vs) ≡ length (elements ms))
        × (length ts ≡ length (elements vs))
  unfolding deserialize_with_meta entries
  deserialize_with_meta-length (array vs) (array ms) ts h =
      elim (Bool-cases (length (elements vs) == length (elements ms))) [
        | inl e ↦ (
          vs,
          ms,
          refl,
          refl,
          ground arith,
          decode_all-length (elements vs) (elements ms) (rw e at h) (ground arith),
        )
        | inr e ↦ cc (rw e at h)
      ]
  deserialize_with_meta-length (array vs) (bulk_string s) ts h = cc
  deserialize_with_meta-length (array vs) server_error ts h = cc
  deserialize_with_meta-length (array vs) other ts h = cc
  deserialize_with_meta-length (bulk_string s) m ts h = cc
  deserialize_with_meta-length server_error m ts h = cc
  deserialize_with_meta-length other m ts h = cc

  -- A reply for a single task.
  pub deserialize_with_meta-one :
      (v m : Value) (t : CompactTask)
      → decode core v m ≡ ok t
      → deserialize_with_meta core (array (cons v nil) ∷ array (cons m nil) ∷ []) ≡ ok (t ∷ [])
  unfolding deserialize_with_meta decode_all entries elements
  deserialize_with_meta-one v m t h = rw h
