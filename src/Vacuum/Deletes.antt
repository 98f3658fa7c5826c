-- ===== src/Vacuum/Deletes.antt =====
-- What a vacuum deletes.
use apalis_redis.Prelude.{
  ℕ, suc, ◌≡◌, refl, ◌≢◌, inl, inr, sym, ◌∙◌, ap, true, Bool-cases, none, List, [], ◌∷◌, Text,
  bytes, text_dec, if_pos, subst, if_neg,
}
use apalis_redis.Prelude.Assoc.{lookup, contains, erase_all, lookup-erase}
use apalis_redis.Redis.{Redis, put-ne, put_self}
use apalis_redis.Redis.Laws.{effects}
use apalis_redis.Config.{Config, job_data_hash, job_meta_hash}
use apalis_redis.Config.Keys.{meta-ne-data}
use apalis_redis.Lease.{meta_key}
use apalis_redis.Vacuum.{terminal, delete_task, vacuum_all, vacuum_lua, vacuum}
use apalis_redis.Vacuum.Spares.{
  deleted, loop, status_of, delete_task-ok, deleted-meta, deleted-data, received-state,
}

abbrev pub keys_of : List (Text × Text) → List Text
keys_of [] = []
keys_of ((k, v) ∷ m) = k ∷ keys_of m

module _ (R : Redis) (c : Config) where
  open R use {Db, keyspace}

  -- Neither data nor metadata.
  abbrev pub Gone : Text → Db → Type 0
  Gone j d =
      (lookup j ((keyspace d).hash (job_data_hash c)) ≡ none)
      × ((keyspace d).hash (meta_key (job_meta_hash c) j) ≡ [])

  pub Gone-self : (j : Text) (d : Db) → Gone j (deleted R c j d)
  unfolding delete_task erase_all
  Gone-self j d = (
    simp effects (
        ap (lookup j) (
          put-ne _ _ _ _ (meta-ne-data c j)
          ∙ put-ne _ _ _ _ (meta-ne-data c (bytes "result"))
          ∙ put_self _ (job_data_hash c) _)
        ∙ lookup-erase j j ((keyspace d).hash (job_data_hash c))
        ∙ if_pos (text_dec j j) refl _ _),
    simp effects,
  )

  -- What is gone stays gone.
  Gone-loop :
      (j : Text) (fields : List (Text × Text)) (n : ℕ) (d : Db)
      → bytes "result" ≢ j
      → Gone j d
      → Gone j (loop R c fields n d)
  unfolding vacuum_all
  Gone-loop j [] n d named gone = gone
  Gone-loop j ((id, v) ∷ fields) n d named gone =
      let status = R.hget d (meta_key (job_meta_hash c) id) (bytes "status") in
      elim (Bool-cases (terminal status)) [
        | inr live ↦ rw (loop, vacuum_all, live) (Gone-loop j fields n d named gone)
        | inl over ↦
            let still : Gone j (deleted R c id d) = elim (text_dec id j) [
              | yes e ↦ rw e (Gone-self j d)
              | no ne ↦ (
                deleted-data R c id j d ne named ∙ gone.0,
                deleted-meta R c id j d ne named ∙ gone.1,
              )
            ] in
            rw (loop, vacuum_all, over, delete_task-ok R c id d)
              (Gone-loop j fields (suc n) (deleted R c id d) named still)
      ]

  loop-Gone :
      (j : Text) (fields : List (Text × Text)) (n : ℕ) (d : Db)
      → bytes "result" ≢ j
      → terminal (status_of R c j d) ≡ true
      → contains j (keys_of fields) ≡ true
      → Gone j (loop R c fields n d)
  unfolding vacuum_all contains
  loop-Gone j [] n d named h listed = absurd cc
  loop-Gone j ((id, v) ∷ fields) n d named h listed =
      let status = R.hget d (meta_key (job_meta_hash c) id) (bytes "status") in
      let known : status ≡ status_of R c id d =
        R.hget_lem d (meta_key (job_meta_hash c) id) (bytes "status") in
      elim (text_dec id j) [
        | yes e ↦
            let over : terminal status ≡ true =
              ap terminal known ∙ ap (λ i. terminal (status_of R c i d)) e ∙ h in
            rw (loop, vacuum_all, over, delete_task-ok R c id d)
              (Gone-loop j fields (suc n) (deleted R c id d) named
                (subst (λ i. Gone j (deleted R c i d)) (sym e) (Gone-self j d)))
        | no ne ↦
            let later : contains j (keys_of fields) ≡ true =
              sym (if_neg (text_dec id j) ne true (contains j (keys_of fields))) ∙ listed in
            elim (Bool-cases (terminal status)) [
              | inr live ↦ rw (loop, vacuum_all, live) (loop-Gone j fields n d named h later)
              | inl over ↦
                  rw (loop, vacuum_all, over, delete_task-ok R c id d)
                    (loop-Gone j fields (suc n) (deleted R c id d) named
                      (ap (λ m. terminal (lookup (bytes "status") m))
                          (deleted-meta R c id j d ne named)
                        ∙ h)
                      later)
            ]
      ]

  -- A vacuum deletes the data and the metadata of every task that the server lists as stored and
  -- whose status is done, failed or killed. A task called `result` is left out, as its metadata has
  -- the key of the results' hash.
  pub vacuum-deletes :
      (j : Text) (d : Db)
      → bytes "result" ≢ j
      → terminal (status_of R c j d) ≡ true
      → contains j (keys_of (R.hgetall d (job_data_hash c))) ≡ true
      → let d' = (vacuum R c d).1 in
        (lookup j ((keyspace d').hash (job_data_hash c)) ≡ none)
        × ((keyspace d').hash (meta_key (job_meta_hash c) j) ≡ [])
  unfolding vacuum vacuum_lua
  vacuum-deletes j d named h listed =
      rw (received-state (vacuum_lua R (job_data_hash c) (job_meta_hash c) d))
        (loop-Gone j (R.hgetall d (job_data_hash c)) 0 d named h listed)
