-- ===== src/Vacuum/Before.antt =====
-- What `vacuum_before` leaves alone, and when it is the same as `vacuum`.
use apalis_redis.Prelude.{
  ℕ, suc, ◌+◌, leb, ◌≡◌, refl, ◌≢◌, inl, inr, sym, ◌∙◌, ap, false, true, Bool, Bool-cases, Option,
  none, some, Option-cases, List, [], ◌∷◌, Text, bytes, text_dec, if_pos, if_neg, if◌then◌else◌,
}
use apalis_redis.Prelude.Assoc.{lookup, contains}
use apalis_redis.Redis.{Redis}
use apalis_redis.Script.{received}
use apalis_redis.Config.{Config, job_data_hash, job_meta_hash}
use apalis_redis.Lease.{meta_key}
use apalis_redis.Vacuum.{
  terminal, aged, vacuum_all, vacuum_lua, vacuum, vacuum_before_all, vacuum_before_lua,
  vacuum_before,
}
use apalis_redis.Vacuum.Spares.{
  deleted, status_of, delete_task-ok, deleted-meta, deleted-data, received-state,
}
use apalis_redis.Vacuum.Deletes.{keys_of, Gone-self}

module _ (R : Redis) (tonumber : Text → Option ℕ) (c : Config) (time secs : ℕ) where
  open R use {Db, keyspace}

  abbrev hash_of : Text → Db → List (Text × Text)
  hash_of j d = (keyspace d).hash (meta_key (job_meta_hash c) j)

  abbrev aged_in : List (Text × Text) → Option Bool
  aged_in m = aged tonumber time secs (lookup (bytes "status") m) (lookup (bytes "done_at") m)

  -- Whether the script takes a task for one that was over long enough ago.
  abbrev pub aged_of : Text → Db → Option Bool
  aged_of j d = aged_in (hash_of j d)

  -- What the script computes from its readings.
  abbrev read : Text → Db → Option Bool
  read id d =
      aged tonumber time secs (R.hget d (meta_key (job_meta_hash c) id) (bytes "status"))
        (R.hget d (meta_key (job_meta_hash c) id) (bytes "done_at"))

  read-aged : (id : Text) (d : Db) → read id d ≡ aged_of id d
  read-aged id d = rw (R.hget_lem d _ (bytes "status"), R.hget_lem d _ (bytes "done_at")) refl

  abbrev loop_before : List (Text × Text) → ℕ → Db → Db
  loop_before fields n d =
      (vacuum_before_all R tonumber (job_data_hash c) (job_meta_hash c) time secs fields n d).1

  loop-spares :
      (j : Text) (fields : List (Text × Text)) (n : ℕ) (d : Db)
      → bytes "result" ≢ j
      → aged_of j d ≢ some true
      → (lookup j ((keyspace (loop_before fields n d)).hash (job_data_hash c))
          ≡ lookup j ((keyspace d).hash (job_data_hash c)))
        × (hash_of j (loop_before fields n d) ≡ hash_of j d)
  unfolding vacuum_before_all
  loop-spares j [] n d named h = (refl, refl)
  loop-spares j ((id, v) ∷ fields) n d named h = elim (Option-cases (read id d)) [
    | inl e ↦ rw (loop_before, vacuum_before_all, e) (refl, refl)
    | inr (false, e) ↦ rw (loop_before, vacuum_before_all, e) (loop-spares j fields n d named h)
    | inr (true, e) ↦
        let ne : id ≢ j = λ i. h (ap (λ k. aged_of k d) (sym i) ∙ sym (read-aged id d) ∙ e) in
        let same = deleted-meta R c id j d ne named in
        let rest =
          loop-spares j fields (suc n) (deleted R c id d) named
            (λ g. h (sym (ap aged_in same) ∙ g)) in
        rw (loop_before, vacuum_before_all, e, delete_task-ok R c id d)
          (rest.0 ∙ deleted-data R c id j d ne named, rest.1 ∙ same)
  ]

  -- `vacuum_before` leaves the data and the metadata of a task alone, even where the script fails,
  -- unless the task is done, failed or killed and its `done_at` lies at least the given number of
  -- seconds before the server's time. A task called `result` is left out: its metadata has the key of
  -- the results' hash.
  pub vacuum_before-spares :
      (nanos : ℕ) (j : Text) (d : Db)
      → bytes "result" ≢ j
      → aged_of j d ≢ some true
      → let d' = (vacuum_before R tonumber c time (record { secs = secs; nanos = nanos }) d).1 in
        (lookup j ((keyspace d').hash (job_data_hash c))
          ≡ lookup j ((keyspace d).hash (job_data_hash c)))
        × ((keyspace d').hash (meta_key (job_meta_hash c) j)
            ≡ (keyspace d).hash (meta_key (job_meta_hash c) j))
  unfolding vacuum_before vacuum_before_lua
  vacuum_before-spares nanos j d named h =
      rw
        (received-state
          (vacuum_before_lua R tonumber (job_data_hash c) (job_meta_hash c) time secs d))
        (loop-spares j (R.hgetall d (job_data_hash c)) 0 d named h)

  -- Every task that is over has been for long enough.
  abbrev pub AllAged : Db → Type 0
  AllAged d =
      (j : Text)
      → bytes "result" ≢ j
      → terminal (status_of R c j d) ≡ true
      → aged_of j d ≡ some true

  AllAged-deleted : (id : Text) (d : Db) → AllAged d → AllAged (deleted R c id d)
  unfolding terminal lookup
  AllAged-deleted id d h j named t = elim (text_dec id j) [
    | yes e ↦
        let g : terminal (status_of R c id (deleted R c id d)) ≡ false =
          ap (λ m. terminal (lookup (bytes "status") m)) (Gone-self R c id d).1 in
        cc (t, g, ap (λ i. terminal (status_of R c i (deleted R c id d))) e)
    | no ne ↦
        let same = deleted-meta R c id j d ne named in
        ap aged_in same ∙ h j named (sym (ap (λ m. terminal (lookup (bytes "status") m)) same) ∙ t)
  ]

  aged-live : (s o : Option Text) → terminal s ≡ false → aged tonumber time secs s o ≡ some false
  unfolding aged
  aged-live s none h = refl
  aged-live s (some t) h =
      ap
        (λ b.
          if b
          then elim (tonumber t) as (λ _. Option Bool) [
            | none ↦ none
            | some n ↦ some (leb (n + secs) time)
          ]
          else some false)
        h

  loop-same :
      (fields : List (Text × Text)) (n : ℕ) (d : Db)
      → contains (bytes "result") (keys_of fields) ≡ false
      → AllAged d
      → vacuum_before_all R tonumber (job_data_hash c) (job_meta_hash c) time secs fields n d
        ≡ vacuum_all R (job_data_hash c) (job_meta_hash c) fields n d
  unfolding vacuum_before_all vacuum_all contains
  loop-same [] n d named h = refl
  loop-same ((id, v) ∷ fields) n d named h =
      let status = R.hget d (meta_key (job_meta_hash c) id) (bytes "status") in
      let known : status ≡ status_of R c id d =
        R.hget_lem d (meta_key (job_meta_hash c) id) (bytes "status") in
      elim (text_dec id (bytes "result")) [
        | yes e ↦ cc (
          named,
          if_pos (text_dec id (bytes "result")) e true (contains (bytes "result") (keys_of fields)),
        )
        | no ne ↦
            let rest : contains (bytes "result") (keys_of fields) ≡ false =
              sym (
                if_neg (text_dec id (bytes "result")) ne true
                  (contains (bytes "result") (keys_of fields)))
              ∙ named in
            elim (Bool-cases (terminal status)) [
              | inr live ↦
                  let e : read id d ≡ some false = aged-live status _ live in
                  rw (vacuum_before_all, vacuum_all, e, live) (loop-same fields n d rest h)
              | inl over ↦
                  let e : read id d ≡ some true =
                    read-aged id d ∙ h id (λ i. ne (sym i)) (sym (ap terminal known) ∙ over) in
                  rw (vacuum_before_all, vacuum_all, e, over, delete_task-ok R c id d)
                    (loop-same fields (suc n) (deleted R c id d) rest (AllAged-deleted id d h))
            ]
      ]

  -- Where every task that is over has been for long enough, and none is called `result`,
  -- `vacuum_before` does and returns the same as `vacuum`.
  pub vacuum_before-vacuum :
      (nanos : ℕ) (d : Db)
      → contains (bytes "result") (keys_of (R.hgetall d (job_data_hash c))) ≡ false
      → AllAged d
      → vacuum_before R tonumber c time (record { secs = secs; nanos = nanos }) d ≡ vacuum R c d
  unfolding vacuum_before vacuum_before_lua vacuum vacuum_lua
  vacuum_before-vacuum nanos d named h =
      ap received (loop-same (R.hgetall d (job_data_hash c)) 0 d named h)
