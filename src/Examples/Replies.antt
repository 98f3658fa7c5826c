-- ===== src/Examples/Replies.antt =====
-- A reply to a fetch, a task that is asked for by its id, and a key name.
use mathlib.Core.List.Perm
use apalis_redis.Prelude.{
  ℕ, map, length, arith, if_neg, false, sym, subst, ap, ◌∙◌, ◌≡◌, refl, ◌^◌, true, none, some, List,
  [], ◌∷◌, Text, bytes, text_dec, if◌then◌else◌, All,
}
use apalis_redis.Prelude.Assoc.{lookup, contains, IsMap}
use apalis_redis.Prelude.Counting.{count}
use apalis_redis.Listing.{Filter, list_all_tasks}
use apalis_redis.Listing.Complete.{all_pages, wanted, list_all_tasks-pages}
use apalis_redis.Redis.{fields_of, Keyspace, put, put_self}
use apalis_redis.Redis.Reference.{reference, blank}
use apalis_redis.Config.{job_data_hash, job_meta_hash}
use apalis_redis.Task.{RedisTask}
use apalis_redis.Lease.{meta_key}
use apalis_redis.FetchById.{fetch_by_id, fetch_by_id-found}
use apalis_redis.Script.{ok}
use apalis_redis.Reply.{
  Values, CompactTask, bulk_string, array, nil, cons, decode, is_utf8, parse_below, non_empty,
  locked_at, deserialize_with_meta,
}
use apalis_redis.Reply.RoundTrip.{reserved, flat, IsText, decode-reply, deserialize_with_meta-one}
use apalis_redis.Examples.Fixture.{config, core}

abbrev fields : List (Text × Text)
fields =
    (bytes "attempts", bytes "3")
    ∷ (bytes "max_attempts", bytes "25")
    ∷ (bytes "status", bytes "Pending")
    ∷ (bytes "trace", bytes "on")
    ∷ []

fields-IsText : All IsText fields
unfolding is_utf8
fields-IsText = ((refl, refl), ((refl, refl), ((refl, refl), ((refl, refl), tt))))

fields-IsMap : IsMap fields
unfolding lookup text_dec
fields-IsMap = (refl, (refl, (refl, (refl, tt))))

attempts_field : lookup (bytes "attempts") fields ≡ some (bytes "3")
unfolding lookup text_dec
attempts_field = refl

max_attempts_field : lookup (bytes "max_attempts") fields ≡ some (bytes "25")
unfolding lookup text_dec
max_attempts_field = refl

status_field : lookup (bytes "status") fields ≡ some (bytes "Pending")
unfolding lookup text_dec
status_field = refl

three : parse_below (2 ^ 32) (bytes "3") ≡ some 3
unfolding parse_below
three = refl

twenty_five : parse_below (2 ^ 32) (bytes "25") ≡ some 25
unfolding parse_below
twenty_five = refl

id_text : is_utf8 (bytes "t1") ≡ true
unfolding is_utf8
id_text = refl

decode-reply_example :
    (t : CompactTask) × (decode core
        (bulk_string (bytes "a"))
        (array (cons (bulk_string (bytes "t1")) (flat fields)))
      ≡ ok t)
    × (t.args ≡ bytes "a")
    × (t.task_id ≡ bytes "t1")
    × (t.attempts ≡ 3)
    × (t.max_attempts ≡ 25)
    × (t.status ≡ bytes "Pending")
    × (t.idempotency_key ≡ non_empty (lookup (bytes "idempotency_key") fields))
    × (t.lock_by ≡ lookup (bytes "locked_by") fields)
    × (t.lock_at ≡ locked_at (lookup (bytes "locked_at") fields))
    × (lookup (bytes "trace") t.meta
        ≡ (if contains (bytes "trace") reserved then none else lookup (bytes "trace") fields))
decode-reply_example =
    decode-reply core (bytes "a") (bytes "t1") (bytes "t1") (bytes "3") (bytes "25")
      (bytes "Pending") (bytes "Pending") (bytes "trace") 3 25 fields id_text refl fields-IsText
      fields-IsMap attempts_field three max_attempts_field twenty_five status_field refl

abbrev datas : Values
datas = cons (bulk_string (bytes "a")) nil

abbrev metas : Values
metas = cons (array (cons (bulk_string (bytes "t1")) (flat fields))) nil

one_task :
    (t : CompactTask) × (decode core
        (bulk_string (bytes "a"))
        (array (cons (bulk_string (bytes "t1")) (flat fields)))
      ≡ ok t)
one_task =
    let all =
      decode-reply core (bytes "a") (bytes "t1") (bytes "t1") (bytes "3") (bytes "25")
        (bytes "Pending") (bytes "Pending") (bytes "trace") 3 25 fields id_text refl fields-IsText
        fields-IsMap attempts_field three max_attempts_field twenty_five status_field refl in
    (all.0, all.1)

abbrev decoded_reply : List CompactTask
decoded_reply = one_task.0 ∷ []

reply_decodes : deserialize_with_meta core (array datas ∷ array metas ∷ []) ≡ ok decoded_reply
reply_decodes = deserialize_with_meta-one core _ _ one_task.0 one_task.1

abbrev stored : Keyspace
stored = record blank {
  hash =
      put (put (λ k. []) (job_data_hash config) ((bytes "t1", bytes "a") ∷ []))
        (meta_key (job_meta_hash config) (bytes "t1")) fields;
}

abbrev stored_fields : List (Text × Text)
stored_fields = stored.hash (meta_key (job_meta_hash config) (bytes "t1"))

stored_fields_are : stored_fields ≡ fields
stored_fields_are = put_self _ (meta_key (job_meta_hash config) (bytes "t1")) fields

stored_data : lookup (bytes "t1") (stored.hash (job_data_hash config)) ≡ some (bytes "a")
unfolding lookup put text_dec job_data_hash job_meta_hash
stored_data = refl

fetch_by_id-found_example :
    (t : RedisTask) × (fetch_by_id reference core config (bytes "t1") stored
      ≡ (ok (some t), stored))
    × (t.args ≡ bytes "a")
    × (t.task_id ≡ some (bytes "t1"))
    × (t.status ≡ bytes "Pending")
    × (t.attempt ≡ 3)
    × (t.max_attempts ≡ some 25)
    × (lookup (bytes "trace") t.metadata ≡ (
        if contains (bytes "trace") reserved then none else lookup (bytes "trace") stored_fields))
fetch_by_id-found_example =
    fetch_by_id-found reference core config (bytes "a") (bytes "t1") (bytes "t1") (bytes "3")
      (bytes "25") (bytes "Pending") (bytes "Pending") (bytes "trace") 3 25 stored stored_data
      id_text refl (subst (All IsText) (sym stored_fields_are) fields-IsText)
      (subst IsMap (sym stored_fields_are) fields-IsMap)
      (ap (lookup (bytes "attempts")) stored_fields_are ∙ attempts_field) three
      (ap (lookup (bytes "max_attempts")) stored_fields_are ∙ max_attempts_field) twenty_five
      (ap (lookup (bytes "status")) stored_fields_are ∙ status_field) refl

-- The only stored task.
found_task :
    (t : RedisTask) × (fetch_by_id reference core config (bytes "t1") stored
      ≡ (ok (some t), stored))
found_task =
    let all =
      fetch_by_id-found reference core config (bytes "a") (bytes "t1") (bytes "t1") (bytes "3")
        (bytes "25") (bytes "Pending") (bytes "Pending") (bytes "trace") 3 25 stored stored_data
        id_text refl (subst (All IsText) (sym stored_fields_are) fields-IsText)
        (subst IsMap (sym stored_fields_are) fields-IsMap)
        (ap (lookup (bytes "attempts")) stored_fields_are ∙ attempts_field) three
        (ap (lookup (bytes "max_attempts")) stored_fields_are ∙ max_attempts_field) twenty_five
        (ap (lookup (bytes "status")) stored_fields_are ∙ status_field) refl in
    (all.0, all.1)

stored_ids : fields_of (stored.hash (job_data_hash config)) ≡ bytes "t1" ∷ []
unfolding fields_of put text_dec job_data_hash job_meta_hash
stored_ids = refl

only_one : (id : Text) → contains id (bytes "t1" ∷ []) ≡ true → bytes "t1" ≡ id
unfolding contains
only_one id h = elim (text_dec (bytes "t1") id) [
  | yes e ↦ e
  | no n ↦ absurd (cc (sym (if_neg (text_dec (bytes "t1") id) n true false) ∙ h))
]

all_found :
    (id : Text)
    → contains id (fields_of (stored.hash (job_data_hash config))) ≡ true
    → fetch_by_id reference core config id stored ≡ (ok (some found_task.0), stored)
all_found id h =
    subst (λ i. fetch_by_id reference core config i stored ≡ (ok (some found_task.0), stored))
      (only_one id (ap (contains id) (sym stored_ids) ∙ h)) found_task.1

abbrev pending_tasks : Filter
pending_tasks = record { status = some (bytes "Pending"); page = 1; page_size = none }

list_all_tasks-pages_example :
    (page : ℕ → List Text) × ((p : ℕ)
      → list_all_tasks reference (λ s. s) core config (record pending_tasks { page = p }) stored
        ≡ (ok (map (λ id. found_task.0) (page p)), stored))
    × ((j : Text)
        → count j (all_pages page 1) ≡ (
            if wanted reference config (bytes "Pending") stored j
            then count j (fields_of (stored.hash (job_data_hash config)))
            else 0))
list_all_tasks-pages_example =
    list_all_tasks-pages reference config core pending_tasks (λ s. s) (λ id. found_task.0) 1 stored
      (λ s. Perm.refl s) (omega (arith, ap length stored_ids)) all_found

no_data : lookup (bytes "t1") (blank.hash (job_data_hash config)) ≡ none
unfolding lookup
no_data = refl
