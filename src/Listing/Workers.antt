-- ===== src/Listing/Workers.antt =====
-- `list_workers` of src/queries/list_workers.rs with lua/list_workers.lua: the workers of a queue.
-- The script's `cjson.encode` and the reading of its text by serde are parameters.
use apalis_redis.Prelude.{
  ℕ, ◌≡◌, ◌≢◌, refl, sym, inl, inr, ◌∷◌, Bool-cases, Option-cases, arith, length-append, ◌∙◌,
  length, ap, subst, Option, none, some, List, [], ◌++◌, Text, bytes, map, Perm,
}
use apalis_redis.Prelude.Assoc.{lookup}
use apalis_redis.Redis.{Redis, put-ne}
use apalis_redis.Script.{Lua, Query, error, json, pure, raise, reads, invoke, ◌>>=◌, ok, err}
use apalis_redis.Config.{Config, Duration, workers_set, worker_metadata_key, orphaned_duration}
use apalis_redis.Redis.Laws.{effects}
use apalis_redis.Task.{WorkerContext}
use apalis_redis.Worker.{seen_within, register_worker_lua, register_worker}

-- One entry of the script's result; a value that the server does not have is `false`.
pub record Row : Type 0 where
  pub id : Text
  pub queue : Text
  pub last_heartbeat : ℕ
  pub started_at : ℕ
  pub backend : Option Text
  pub layers : Option Text

abbrev pub heard_of : Row → Text × ℕ
heard_of r = (r.id, r.last_heartbeat)

-- `format!("{}:workers:", config.queue)`
abbrev pub metadata_prefix : Config → Text
metadata_prefix c = c.queue ++ bytes ":workers:"

module _ (R : Redis) where
  open R use {Db, keyspace}

  abbrev pub row : Text → Text → Db → Text × ℕ → Row
  row workers prefix d (name, last_seen) = record {
    id = name;
    queue = workers;
    last_heartbeat = last_seen;
    started_at = 0;
    backend = R.hget d (prefix ++ name) (bytes "backend_name");
    layers = R.hget d (prefix ++ name) (bytes "service");
  }

  abbrev pub rows : Text → Text → Db → List Row
  rows workers prefix d = map (row workers prefix d) (R.zrange_all d workers)

  unfoldable pub list_workers_lua : (List Row → Text) → Text → Text → Lua Db Text
  list_workers_lua encode workers prefix = reads (λ d. encode (rows workers prefix d))

  -- The text, read by serde.
  abbrev pub read_json : {A : Type 0} → Option A → Query Db A
  read_json none = raise (error json)
  read_json (some a) = pure a

  unfoldable pub list_workers :
      {A : Type 0} → (List Row → Text) → (Text → Option (List A)) → Config → Query Db (List A)
  list_workers encode from_str c = do
    text ← invoke (list_workers_lua encode (workers_set c) (metadata_prefix c))
    read_json (from_str text)

  rows-heard_of :
      (workers prefix : Text) (d : Db) (s : List (Text × ℕ))
      → map heard_of (map (row workers prefix d) s) ≡ s
  rows-heard_of workers prefix d [] = refl
  rows-heard_of workers prefix d (m ∷ s) = ap (λ l. m ∷ l) (rows-heard_of workers prefix d s)

  -- A listing of workers changes nothing, and hands to the readers of JSON one entry for each worker
  -- of the server's set, with the score by which the worker was last heard of; it returns what they
  -- read, or a JSON error if they read nothing.
  pub list_workers-lists :
      {A : Type 0} (encode : List Row → Text) (from_str : Text → Option (List A)) (c : Config)
      (d : Db)
      → (shown : List Row) × Perm (map heard_of shown) ((keyspace d).zset (workers_set c))
        × (list_workers encode from_str c d
            ≡ (elim (from_str (encode shown)) [ none ↦ err (error json) | some ws ↦ ok ws ], d))
  unfolding list_workers list_workers_lua
  list_workers-lists encode from_str c d = (
    rows (workers_set c) (metadata_prefix c) d,
    subst (λ s. Perm s ((keyspace d).zset (workers_set c)))
        (sym (rows-heard_of (workers_set c) (metadata_prefix c) d (R.zrange_all d (workers_set c))))
        (R.zrange_all-perm d (workers_set c)),
    elim (Option-cases (from_str (encode (rows (workers_set c) (metadata_prefix c) d)))) [
      | inl e ↦ rw e
      | inr (ws, e) ↦ rw e
    ],
  )

  -- The key that a registration writes is not the one that the listing reads for that worker.
  metadata-ne-listed :
      (c : Config) (name : Text) → worker_metadata_key c name ≢ metadata_prefix c ++ name
  unfolding worker_metadata_key
  metadata-ne-listed c name e =
      let sizes = ap length e in
      absurd (
        omega (
          arith,
          sizes,
          length-append c.queue (bytes ":workers:metadata:" ++ name),
          length-append (bytes ":workers:metadata:") name,
          length-append (c.queue ++ bytes ":workers:") name,
          length-append c.queue (bytes ":workers:"),
        ))

  -- What a registration writes last changes no other hash.
  hget-registered :
      (workers metadata k f member queues : Text) (now : ℕ) (fs : List (Text × Text)) (d : Db)
      → metadata ≢ k
      → R.hget (R.hset metadata fs (R.zadd_gt queues now workers (R.zadd workers now member d))) k f
        ≡ R.hget d k f
  hget-registered workers metadata k f member queues now fs d ne =
      R.hget_lem _ k f
      ∙ ap (lookup f) (simp effects (put-ne _ metadata _ k ne))
      ∙ sym (R.hget_lem d k f)

  -- The entry that a listing makes of the worker has, after a registration, the backend and the
  -- service that it had before.
  pub row-register_worker :
      (w : WorkerContext) (c : Config) (now score : ℕ) (d : Db) (t : Duration)
      → orphaned_duration c ≡ some t
      → let d' = (register_worker R w c now d).1 in
        let before = row (workers_set c) (metadata_prefix c) d (w.name, score) in
        let after = row (workers_set c) (metadata_prefix c) d' (w.name, score) in
        (after.backend ≡ before.backend) × (after.layers ≡ before.layers)
  unfolding register_worker register_worker_lua
  row-register_worker w c now score d t e =
      rw e (elim (Bool-cases (seen_within now t.secs (R.zscore d (workers_set c) w.name))) [
        | inl h ↦ rw h (refl, refl)
        | inr h ↦ rw h (
          hget-registered _ _ _ _ _ _ _ _ d (metadata-ne-listed c w.name),
          hget-registered _ _ _ _ _ _ _ _ d (metadata-ne-listed c w.name),
        )
      ])
