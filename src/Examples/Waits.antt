-- ===== src/Examples/Waits.antt =====
-- Waiting for a task that is done between two rounds.
use mathlib.Core.List.Perm
use apalis_redis.Prelude.{
  ◌+◌, ◌^◌, false, ◌≡◌, refl, true, some, List, [], ◌∷◌, Text, bytes, text_dec, map, subst, if_neg,
}
use apalis_redis.Prelude.Assoc.{lookup, contains, remove}
use apalis_redis.Redis.{Keyspace, put}
use apalis_redis.Redis.Reference.{reference, blank}
use apalis_redis.Script.{ok}
use apalis_redis.Config.{job_meta_hash}
use apalis_redis.Lease.{meta_key}
use apalis_redis.Reply.{is_utf8, parse_below}
use apalis_redis.WaitFor.{
  Reader, TaskResult, attempts_of, reported, completed, judged, verdict, remove_all, parsed,
  check_one, check_status, yielded, round, rounds,
}
use apalis_redis.Prelude.Counting.{count}
use apalis_redis.WaitFor.Batches.{is_over}
use apalis_redis.WaitFor.Delivery.{delivered, wait_for-delivers}
use apalis_redis.WaitFor.Finishing.{wait_for-finishes}
use apalis_redis.Examples.Fixture.{config, core}

-- A result is its own JSON.
abbrev reader : Reader Text
reader = record { from_slice = λ s. some s; usize_from_redis = parse_below (2 ^ 64) }

abbrev over : Keyspace
over = record blank {
  hash =
      put (λ k. []) (meta_key (job_meta_hash config) (bytes "t1"))
        ((bytes "status", bytes "Done")
          ∷ (bytes "result", bytes "42")
          ∷ (bytes "attempts", bytes "3")
          ∷ []);
}

abbrev answer : TaskResult Text
answer = record { task_id = bytes "t1"; attempt = 3; status = bytes "Done"; result = bytes "42" }

abbrev pending : List Text
pending = bytes "t1" ∷ []

checked : (check_status reference core reader config pending over).0 ≡ ok (answer ∷ [])
unfolding check_status check_one verdict judged completed reported attempts_of is_utf8 parse_below
    lookup put text_dec job_meta_hash
checked = refl

polled :
    rounds reference core reader (λ s. s) config pending (blank ∷ over ∷ [])
    ≡ some (ok answer ∷ [], [])
unfolding rounds round parsed yielded remove_all remove check_status check_one verdict judged
    completed reported attempts_of is_utf8 parse_below lookup put text_dec job_meta_hash
polled = refl

over_self : is_over reference core reader config (bytes "t1") over ≡ true
unfolding lookup put text_dec job_meta_hash
over_self = refl

all_over :
    (j : Text) → contains j pending ≡ true → is_over reference core reader config j over ≡ true
unfolding contains
all_over j h = elim (text_dec (bytes "t1") j) [
  | yes e ↦ subst (λ i. is_over reference core reader config i over ≡ true) e over_self
  | no n ↦ cc (h, if_neg (text_dec (bytes "t1") j) n true false)
]

wait_for-delivers_example :
    count (bytes "t1") (delivered {Res = Text} (ok answer ∷ [])) + count (bytes "t1") []
    ≡ count (bytes "t1") pending
wait_for-delivers_example =
    wait_for-delivers reference core reader config (λ s. s) (λ s. Perm.refl s) pending
      (blank ∷ over ∷ []) (ok answer ∷ []) [] (bytes "t1") (λ id h. refl) polled

wait_for-finishes_example :
    rounds reference core reader (λ s. s) config pending (over ∷ blank ∷ [])
    ≡ some (map ok (answer ∷ []), [])
wait_for-finishes_example =
    wait_for-finishes reference core reader config (λ s. s) (λ s. Perm.refl s) (bytes "t1") [] over
      (blank ∷ []) (answer ∷ []) (λ i h. refl) all_over checked
