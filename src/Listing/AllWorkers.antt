-- ===== src/Listing/AllWorkers.antt =====
-- `list_all_workers` of src/queries/list_workers.rs with lua/list_all_workers.lua: the workers of all
-- queues. The JSON of cjson and of serde is a parameter.
use apalis_redis.Prelude.{
  ℕ, ◌≡◌, refl, ◌∙◌, ap, ◌++◌, map, Option, none, some, List, [], ◌∷◌, Text, bytes, append-nil,
  append_assoc, sym, ◌⊎◌, inl, inr, Option-cases,
}
use apalis_redis.Redis.{Redis}
use apalis_redis.Script.{
  Lua, Query, ok, err, error, json, not_indexable, pure, raise, reads, invoke, database, raised,
  Result, ScriptError, ◌>>=◌,
}
use apalis_redis.Metrics.{members}
use apalis_redis.Listing.Workers.{read_json}

-- `pcall(cjson.decode, meta_json)`: no JSON; a value with the fields `storage` and `service`, as far
-- as they are there and not false; or one of which Lua cannot read a field, such as a number.
pub data Decoded (V : Type 0) : Type 0 where
  failed : Decoded V
  table : Option V → Option V → Decoded V
  no_table : Decoded V

-- One entry of the script's result.
pub record Entry (V : Type 0) : Type 0 where
  pub queue : Text
  pub id : Text
  pub last_heartbeat : ℕ
  pub started_at : ℕ
  pub backend : V
  pub layers : V

-- Of whom an entry says when it was last heard of.
abbrev pub heard : {V : Type 0} → Entry V → Text × Text × ℕ
heard e = (e.queue, e.id, e.last_heartbeat)

module _ (R : Redis) where
  open R use {Db}

  -- The workers of some queues with when each was last heard of, as the server replies them.
  unfoldable pub everyone : Db → List Text → List (Text × Text × ℕ)
  everyone d [] = []
  everyone d (queue_key ∷ queues) =
      map (λ m. (queue_key, m.0, m.1)) (R.zrange_all d queue_key) ++ everyone d queues

module _ (R : Redis) {V : Type 0} (decode : Text → Decoded V) (empty : V) where
  open R use {Db, keyspace}

  -- `x or ""`
  abbrev pub or_empty : Option V → V
  or_empty none = empty
  or_empty (some v) = v

  abbrev pub entry_of : Text → Text × ℕ → V → V → Entry V
  entry_of queue_key (name, last_seen) backend service = record {
    queue = queue_key;
    id = name;
    last_heartbeat = last_seen;
    started_at = 0;
    backend = backend;
    layers = service;
  }

  unfoldable pub described : Text → Text × ℕ → Decoded V → Lua Db (Entry V)
  described queue_key worker failed = pure (entry_of queue_key worker empty empty)
  described queue_key worker (table storage service) =
      pure (entry_of queue_key worker (or_empty storage) (or_empty service))
  described queue_key worker no_table = raise not_indexable

  -- One worker, with what the queue's metadata key has under its name.
  unfoldable pub worker_entry : Text → Text × ℕ → Option Text → Lua Db (Entry V)
  worker_entry queue_key worker none = pure (entry_of queue_key worker empty empty)
  worker_entry queue_key worker (some meta_json) = described queue_key worker (decode meta_json)

  -- The workers of one queue, after the entries so far.
  unfoldable pub queue_entries : Text → List (Text × ℕ) → List (Entry V) → Lua Db (List (Entry V))
  queue_entries queue_key [] result = pure result
  queue_entries queue_key (worker ∷ workers) result = do
    meta_json ← reads (λ d. R.hget d (queue_key ++ bytes ":workers:metadata:") (worker.0))
    entry ← worker_entry queue_key worker meta_json
    queue_entries queue_key workers (result ++ (entry ∷ []))

  unfoldable pub all_entries : List Text → List (Entry V) → Lua Db (List (Entry V))
  all_entries [] result = pure result
  all_entries (queue_key ∷ queues) result = do
    workers ← reads (λ d. R.zrange_all d queue_key)
    result' ← queue_entries queue_key workers result
    all_entries queues result'

  unfoldable pub list_all_workers_lua : (List (Entry V) → Text) → Lua Db Text
  list_all_workers_lua encode = do
    queues ← reads (λ d. members (R.zrange_all d (bytes "core:apalis:queues:list")))
    result ← all_entries queues []
    pure (encode result)

  unfoldable pub list_all_workers :
      {A : Type 0} → (List (Entry V) → Text) → (Text → Option (List A)) → Query Db (List A)
  list_all_workers encode from_str = do
    text ← invoke (list_all_workers_lua encode)
    read_json R (from_str text)

  -- Some worker's metadata is JSON of which no field can be read.
  abbrev pub Unreadable : Db → Type 0
  Unreadable d =
      (q name meta_json : Text) × (R.hget d (q ++ bytes ":workers:metadata:") name ≡ some meta_json)
      × (decode meta_json ≡ no_table)

  -- The script can end only with a reply or, if some metadata is unreadable, by an index error, and has
  -- changed nothing.
  abbrev Ends : {A : Type 0} → (A → Type 0) → Result ScriptError A × Db → Db → Type 0
  Ends {A} P x d = (Unreadable d × (x ≡ (err not_indexable, d))) ⊎ ((a : A) × P a × (x ≡ (ok a, d)))

  described-heard :
      (q : Text) (w : Text × ℕ) (o : Decoded V) (d : Db)
      → (o ≡ no_table → Unreadable d)
      → Ends (λ e. heard e ≡ (q, w.0, w.1)) (described q w o d) d
  unfolding described
  described-heard q (n, s) failed d h = inr (_, refl, refl)
  described-heard q (n, s) (table storage service) d h = inr (_, refl, refl)
  described-heard q (n, s) no_table d h = inl (h refl, refl)

  worker_entry-heard :
      (q : Text) (w : Text × ℕ) (o : Option Text) (d : Db)
      → R.hget d (q ++ bytes ":workers:metadata:") (w.0) ≡ o
      → Ends (λ e. heard e ≡ (q, w.0, w.1)) (worker_entry q w o d) d
  unfolding worker_entry
  worker_entry-heard q (n, s) none d h = inr (_, refl, refl)
  worker_entry-heard q w (some meta_json) d h =
      described-heard q w (decode meta_json) d (λ e. (q, w.0, meta_json, h, e))

  map-heard-append : (s t : List (Entry V)) → map heard (s ++ t) ≡ map heard s ++ map heard t
  map-heard-append [] t = refl
  map-heard-append (e ∷ s) t = ap (λ l. heard e ∷ l) (map-heard-append s t)

  map-heard-snoc :
      (s : List (Entry V)) (e : Entry V) (who : Text × Text × ℕ) (rest : List (Text × Text × ℕ))
      → heard e ≡ who
      → map heard (s ++ (e ∷ [])) ++ rest ≡ map heard s ++ (who ∷ rest)
  map-heard-snoc s e who rest h =
      ap (λ l. l ++ rest) (map-heard-append s (e ∷ []))
      ∙ append_assoc (map heard s) (heard e ∷ []) rest
      ∙ ap (λ x. map heard s ++ (x ∷ rest)) h

  queue_entries-heard :
      (q : Text) (ws : List (Text × ℕ)) (result : List (Entry V)) (d : Db)
      → Ends
          (λ es. map heard es ≡ map heard result ++ map (λ m. (q, m.0, m.1)) ws)
          (queue_entries q ws result d)
          d
  unfolding queue_entries
  queue_entries-heard q [] result d = inr (result, sym (append-nil (map heard result)), refl)
  queue_entries-heard q (w ∷ ws) result d =
      elim (worker_entry-heard q w (R.hget d (q ++ bytes ":workers:metadata:") (w.0)) d refl) [
        | inl (u, e) ↦ inl (u, rw e)
        | inr (entry, h, e) ↦ elim (queue_entries-heard q ws (result ++ (entry ∷ [])) d) [
          | inl (u, e') ↦ inl (u, rw e e')
          | inr (es, h', e') ↦ inr (es, h' ∙ map-heard-snoc result entry _ _ h, rw e e')
        ]
      ]

  all_entries-heard :
      (queues : List Text) (result : List (Entry V)) (d : Db)
      → Ends
          (λ es. map heard es ≡ map heard result ++ everyone R d queues)
          (all_entries queues result d)
          d
  unfolding all_entries everyone
  all_entries-heard [] result d = inr (result, sym (append-nil (map heard result)), refl)
  all_entries-heard (q ∷ queues) result d =
      elim (queue_entries-heard q (R.zrange_all d q) result d) [
        | inl (u, e) ↦ inl (u, rw e)
        | inr (es, h, e) ↦ elim (all_entries-heard queues es d) [
          | inl (u, e') ↦ inl (u, rw e e')
          | inr (fs, h', e') ↦ inr (
            fs,
            h' ∙ ap (λ l. l ++ everyone R d queues) h ∙ append_assoc (map heard result) _ _,
            rw e e',
          )
        ]
      ]

  -- A listing of all workers changes nothing. It fails only if some metadata is JSON of which no
  -- field can be read; otherwise it hands to the readers of JSON one entry for each worker of each
  -- queue that the server lists, with when that worker was last heard of, and returns what they
  -- read, or a JSON error if they read nothing.
  pub list_all_workers-lists :
      {A : Type 0} (encode : List (Entry V) → Text) (from_str : Text → Option (List A)) (d : Db)
      → (Unreadable d
          × (list_all_workers encode from_str d
              ≡ (err (error (database (raised not_indexable))), d)))
        ⊎ ((shown : List (Entry V)) × (map heard shown
              ≡ everyone R d (members (R.zrange_all d (bytes "core:apalis:queues:list"))))
            × (list_all_workers encode from_str d ≡ (
              elim (from_str (encode shown)) [ none ↦ err (error json) | some ws ↦ ok ws ],
              d,
            )))
  unfolding list_all_workers list_all_workers_lua
  list_all_workers-lists encode from_str d =
      elim (all_entries-heard (members (R.zrange_all d (bytes "core:apalis:queues:list"))) [] d) [
        | inl (u, e) ↦ inl (u, rw e)
        | inr (shown, h, e) ↦ inr (
          shown,
          h,
          elim (Option-cases (from_str (encode shown))) [
            | inl n ↦ rw e (rw n)
            | inr (ws, s) ↦ rw e (rw s)
          ],
        )
      ]
