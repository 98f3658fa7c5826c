-- ===== src/Vacuum/Spares.antt =====
-- What a vacuum leaves alone.
use apalis_redis.Prelude.{
  ℕ, suc, ◌≡◌, refl, ◌≢◌, inl, inr, ◌∙◌, ap, false, Bool-cases, Option, List, [], ◌∷◌, Text, bytes,
  text_dec, if_neg, append-left_cancel,
}
use apalis_redis.Prelude.Assoc.{lookup, erase_all, lookup-erase}
use apalis_redis.Redis.{Redis, put-ne, put_self}
use apalis_redis.Redis.Laws.{effects}
use apalis_redis.Script.{Result, ScriptError, ok, err, received}
use apalis_redis.Config.{Config, job_data_hash, job_meta_hash}
use apalis_redis.Config.Keys.{meta-ne-data, data-ne-meta}
use apalis_redis.Lease.{meta_key}
use apalis_redis.Vacuum.{terminal, delete_task, vacuum_all, vacuum_lua, vacuum}

meta_key-ne : (p i j : Text) → i ≢ j → meta_key p i ≢ meta_key p j
meta_key-ne p i j ne e = ne (append-left_cancel (bytes ":") (append-left_cancel p e))

pub received-state : {D A : Type 0} (x : Result ScriptError A × D) → (received x).1 ≡ x.1
received-state (ok a, d) = refl
received-state (err e, d) = refl

module _ (R : Redis) (c : Config) where
  open R use {Db, keyspace}

  abbrev pub deleted : Text → Db → Db
  deleted id d = (delete_task R (job_data_hash c) (job_meta_hash c) id d).1

  pub delete_task-ok :
      (id : Text) (d : Db)
      → delete_task R (job_data_hash c) (job_meta_hash c) id d ≡ (ok tt, deleted id d)
  unfolding delete_task
  delete_task-ok id d = refl

  -- Deleting a task leaves the data and the metadata of another alone.
  module _ (id j : Text) (d : Db) (ne : id ≢ j) (named : bytes "result" ≢ j) where
    pub deleted-meta :
        (keyspace (deleted id d)).hash (meta_key (job_meta_hash c) j)
        ≡ (keyspace d).hash (meta_key (job_meta_hash c) j)
    unfolding delete_task
    deleted-meta = simp effects (
        put-ne _ _ _ _ (meta_key-ne (job_meta_hash c) id j ne)
        ∙ put-ne _ _ _ _ (meta_key-ne (job_meta_hash c) (bytes "result") j named)
        ∙ put-ne _ _ _ _ (data-ne-meta c j))

    pub deleted-data :
        lookup j ((keyspace (deleted id d)).hash (job_data_hash c))
        ≡ lookup j ((keyspace d).hash (job_data_hash c))
    unfolding delete_task erase_all
    deleted-data = simp effects (
        ap (lookup j) (
          put-ne _ _ _ _ (meta-ne-data c id)
          ∙ put-ne _ _ _ _ (meta-ne-data c (bytes "result"))
          ∙ put_self _ (job_data_hash c) _)
        ∙ lookup-erase j id ((keyspace d).hash (job_data_hash c))
        ∙ if_neg (text_dec id j) ne _ _)

  abbrev pub loop : List (Text × Text) → ℕ → Db → Db
  loop fields n d = (vacuum_all R (job_data_hash c) (job_meta_hash c) fields n d).1

  -- The status of a task in the server's metadata.
  abbrev pub status_of : Text → Db → Option Text
  status_of j d = lookup (bytes "status") ((keyspace d).hash (meta_key (job_meta_hash c) j))

  loop-spares :
      (j : Text) (fields : List (Text × Text)) (n : ℕ) (d : Db)
      → bytes "result" ≢ j
      → terminal (status_of j d) ≡ false
      → (lookup j ((keyspace (loop fields n d)).hash (job_data_hash c))
          ≡ lookup j ((keyspace d).hash (job_data_hash c)))
        × ((keyspace (loop fields n d)).hash (meta_key (job_meta_hash c) j)
            ≡ (keyspace d).hash (meta_key (job_meta_hash c) j))
  unfolding vacuum_all
  loop-spares j [] n d named h = (refl, refl)
  loop-spares j ((id, v) ∷ fields) n d named h =
      let status = R.hget d (meta_key (job_meta_hash c) id) (bytes "status") in
      let known : status ≡ status_of id d =
        R.hget_lem d (meta_key (job_meta_hash c) id) (bytes "status") in
      elim (Bool-cases (terminal status)) [
        | inr live ↦ rw (loop, vacuum_all, live) (loop-spares j fields n d named h)
        | inl over ↦
            let ne : id ≢ j =
              λ e. cc (h, over, ap terminal known, ap (λ i. terminal (status_of i d)) e) in
            let d1 = deleted id d in
            let same = deleted-meta id j d ne named in
            let rest =
              loop-spares j fields (suc n) d1 named
                (ap (λ m. terminal (lookup (bytes "status") m)) same ∙ h) in
            rw (loop, vacuum_all, over, delete_task-ok id d)
              (rest.0 ∙ deleted-data id j d ne named, rest.1 ∙ same)
      ]

  -- A vacuum leaves the data and the metadata of every task alone that is neither done, nor failed,
  -- nor killed. A task called `result` is left out: its metadata has the key of the results' hash.
  pub vacuum-spares :
      (j : Text) (d : Db)
      → bytes "result" ≢ j
      → terminal (status_of j d) ≡ false
      → let d' = (vacuum R c d).1 in
        (lookup j ((keyspace d').hash (job_data_hash c))
          ≡ lookup j ((keyspace d).hash (job_data_hash c)))
        × ((keyspace d').hash (meta_key (job_meta_hash c) j)
            ≡ (keyspace d).hash (meta_key (job_meta_hash c) j))
  unfolding vacuum vacuum_lua
  vacuum-spares j d named h =
      rw (received-state (vacuum_lua R (job_data_hash c) (job_meta_hash c) d))
        (loop-spares j (R.hgetall d (job_data_hash c)) 0 d named h)
