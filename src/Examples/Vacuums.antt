-- ===== src/Examples/Vacuums.antt =====
-- A vacuum of a server with a task that is done and one that waits.
use apalis_redis.Prelude.{
  ℕ, ◌^◌, ◌≡◌, refl, ◌≢◌, ◌∙◌, ap, subst, true, false, Option, none, some, List, [], ◌∷◌, Text,
  bytes, text_dec, append-left_cancel,
}
use apalis_redis.Prelude.Assoc.{lookup, contains}
use apalis_redis.Redis.{Keyspace, put, put-ne}
use apalis_redis.Redis.Reference.{reference, blank}
use apalis_redis.Config.{job_data_hash, job_meta_hash}
use apalis_redis.Lease.{meta_key}
use apalis_redis.Config.Keys.{data-ne-meta}
use apalis_redis.Reply.{parse_below}
use apalis_redis.Vacuum.{terminal, aged, vacuum, vacuum_before}
use apalis_redis.Vacuum.Before.{aged_of, AllAged, vacuum_before-spares, vacuum_before-vacuum}
use apalis_redis.Vacuum.Spares.{status_of}
use apalis_redis.Vacuum.Deletes.{keys_of, vacuum-deletes}
use apalis_redis.Examples.Fixture.{config}

abbrev full : Keyspace
full = record blank {
  hash =
      put
        (put
          (put (λ k. []) (job_data_hash config)
            ((bytes "t1", bytes "a") ∷ (bytes "t2", bytes "b") ∷ []))
          (meta_key (job_meta_hash config) (bytes "t1")) ((bytes "status", bytes "Done") ∷ []))
        (meta_key (job_meta_hash config) (bytes "t2")) ((bytes "status", bytes "Pending") ∷ []);
}

first_over : terminal (status_of reference config (bytes "t1") full) ≡ true
unfolding terminal lookup put text_dec job_data_hash job_meta_hash
first_over = refl

first_listed : contains (bytes "t1") (keys_of (full.hash (job_data_hash config))) ≡ true
unfolding contains put text_dec job_data_hash job_meta_hash
first_listed = refl

first_named : bytes "result" ≢ bytes "t1"
first_named e = cc

vacuum-deletes_example :
    let d' = (vacuum reference config full).1 in
    (lookup (bytes "t1") (d'.hash (job_data_hash config)) ≡ none)
    × (d'.hash (meta_key (job_meta_hash config) (bytes "t1")) ≡ [])
vacuum-deletes_example =
    vacuum-deletes reference config (bytes "t1") full first_named first_over first_listed

-- A task that was done at 100.
abbrev done_fields : List (Text × Text)
done_fields = (bytes "status", bytes "Done") ∷ (bytes "done_at", bytes "100") ∷ []

abbrev aged_server : Keyspace
aged_server = record blank {
  hash =
      put (put (λ k. []) (job_data_hash config) ((bytes "t1", bytes "a") ∷ []))
        (meta_key (job_meta_hash config) (bytes "t1")) done_fields;
}

abbrev tonumber : Text → Option ℕ
tonumber = parse_below (2 ^ 64)

-- After 50 seconds the task is kept where a minute is asked for.
too_young : aged_of reference tonumber config 150 60 (bytes "t1") aged_server ≡ some false
unfolding aged terminal lookup put text_dec job_data_hash job_meta_hash parse_below
too_young = refl

vacuum_before-spares_example :
    let d' =
      (vacuum_before reference tonumber config 150
        (record { secs = 60; nanos = 0 })
        aged_server).1 in
    (lookup (bytes "t1") (d'.hash (job_data_hash config))
      ≡ lookup (bytes "t1") (aged_server.hash (job_data_hash config)))
    × (d'.hash (meta_key (job_meta_hash config) (bytes "t1"))
        ≡ aged_server.hash (meta_key (job_meta_hash config) (bytes "t1")))
vacuum_before-spares_example =
    vacuum_before-spares reference tonumber config 150 60 0 (bytes "t1") aged_server first_named
      (λ e. cc (e, too_young))

done_aged : aged_of reference tonumber config 200 60 (bytes "t1") aged_server ≡ some true
unfolding aged terminal lookup put text_dec job_data_hash job_meta_hash parse_below
done_aged = refl

no_meta : (j : Text) → bytes "t1" ≢ j → aged_server.hash (meta_key (job_meta_hash config) j) ≡ []
no_meta j ne =
    put-ne _ (meta_key (job_meta_hash config) (bytes "t1")) done_fields
      (meta_key (job_meta_hash config) j)
      (λ e. ne (append-left_cancel (bytes ":") (append-left_cancel (job_meta_hash config) e)))
    ∙ put-ne _ (job_data_hash config) _ (meta_key (job_meta_hash config) j) (data-ne-meta config j)

all_aged : AllAged reference tonumber config 200 60 aged_server
unfolding terminal lookup
all_aged j named t = elim (text_dec (bytes "t1") j) [
  | yes e ↦
      subst (λ i. aged_of reference tonumber config 200 60 i aged_server ≡ some true) e done_aged
  | no ne ↦ cc (t, ap (λ m. terminal (lookup (bytes "status") m)) (no_meta j ne))
]

none_named_result :
    contains (bytes "result") (keys_of (aged_server.hash (job_data_hash config))) ≡ false
unfolding contains put text_dec job_data_hash job_meta_hash
none_named_result = refl

vacuum_before-vacuum_example :
    vacuum_before reference tonumber config 200 (record { secs = 60; nanos = 0 }) aged_server
    ≡ vacuum reference config aged_server
vacuum_before-vacuum_example =
    vacuum_before-vacuum reference tonumber config 200 60 0 aged_server none_named_result all_aged
