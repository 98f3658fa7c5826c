-- ===== src/Config/Keys.antt =====
-- The key names of a queue: what they come to.
use apalis_redis.Prelude.{
  ℕ, [], ◌∷◌, arith, ◌≡◌, refl, ◌≢◌, ◌∙◌, sym, ap, subst, ◌++◌, Text, bytes, append-left_cancel,
  append_assoc, differ, differ_self, true, false,
}
use apalis_redis.Config.{
  Config, active_jobs_list, workers_set, worker_metadata_key, inflight_jobs_set, inflight_set_for,
  job_data_hash, job_meta_hash, scheduled_jobs_set, signal_list, idempotency_key_set, done_jobs_set,
  dead_jobs_set, failed_jobs_set,
}

-- What the keys that config.rs makes for one queue are for, and the keys that the scripts make of
-- them with the id of a task or an idempotency key. Not here are a hash of vacuum.lua, which is the
-- metadata of a task called `result`, and the prefix by which list_workers.rs looks for metadata of a
-- worker, which with the worker's name can meet the metadata of another.
pub data Role : Type 0 where
  active workers dead done failed data_hash scheduled signal inflight_prefix : Role
  inflight metadata meta idempotency : Text → Role

-- The key that the code reads and writes in each role. The keys of a task's metadata and of a
-- claimed idempotency key are joined with a colon in the scripts.
unfoldable pub key : Config → Role → Text
key c active = active_jobs_list c
key c workers = workers_set c
key c dead = dead_jobs_set c
key c done = done_jobs_set c
key c failed = failed_jobs_set c
key c data_hash = job_data_hash c
key c scheduled = scheduled_jobs_set c
key c signal = signal_list c
key c inflight_prefix = inflight_jobs_set c
key c (inflight worker) = inflight_set_for c worker
key c (metadata worker) = worker_metadata_key c worker
key c (meta id) = job_meta_hash c ++ (bytes ":" ++ id)
key c (idempotency name) = idempotency_key_set c ++ (bytes ":" ++ name)

-- What follows the queue's name.
abbrev suffix : Role → Text
suffix active = bytes ":active"
suffix workers = bytes ":workers"
suffix dead = bytes ":dead"
suffix done = bytes ":done"
suffix failed = bytes ":failed"
suffix data_hash = bytes ":data"
suffix scheduled = bytes ":scheduled"
suffix signal = bytes ":signal"
suffix inflight_prefix = bytes ":inflight"
suffix (inflight worker) = bytes ":inflight:" ++ worker
suffix (metadata worker) = bytes ":workers:metadata:" ++ worker
suffix (meta id) = bytes ":meta:" ++ id
suffix (idempotency name) = bytes ":idempotency:" ++ name

pub key-suffix : (c : Config) (r : Role) → key c r ≡ c.queue ++ suffix r
unfolding key active_jobs_list workers_set worker_metadata_key inflight_jobs_set inflight_set_for
    job_data_hash job_meta_hash scheduled_jobs_set signal_list idempotency_key_set done_jobs_set
    dead_jobs_set failed_jobs_set
key-suffix c active = refl
key-suffix c workers = refl
key-suffix c dead = refl
key-suffix c done = refl
key-suffix c failed = refl
key-suffix c data_hash = refl
key-suffix c scheduled = refl
key-suffix c signal = refl
key-suffix c inflight_prefix = refl
key-suffix c (inflight worker) = append_assoc c.queue (bytes ":inflight") (bytes ":" ++ worker)
key-suffix c (metadata worker) = refl
key-suffix c (meta id) = append_assoc c.queue (bytes ":meta") (bytes ":" ++ id)
key-suffix c (idempotency name) = append_assoc c.queue (bytes ":idempotency") (bytes ":" ++ name)

apart : (r s : Role) → differ (suffix r) (suffix s) ≡ true → suffix r ≡ suffix s → r ≡ s
apart r s h e = absurd (cc (subst (λ t. differ (suffix r) t ≡ false) e (differ_self (suffix r)), h))

suffix-injective : (r s : Role) → suffix r ≡ suffix s → r ≡ s
suffix-injective active active e = refl
suffix-injective workers workers e = refl
suffix-injective dead dead e = refl
suffix-injective done done e = refl
suffix-injective failed failed e = refl
suffix-injective data_hash data_hash e = refl
suffix-injective scheduled scheduled e = refl
suffix-injective signal signal e = refl
suffix-injective inflight_prefix inflight_prefix e = refl
suffix-injective (inflight v) (inflight w) e =
    ap inflight (append-left_cancel (bytes ":inflight:") e)
suffix-injective (metadata v) (metadata w) e =
    ap metadata (append-left_cancel (bytes ":workers:metadata:") e)
suffix-injective (meta v) (meta w) e = ap meta (append-left_cancel (bytes ":meta:") e)
suffix-injective (idempotency v) (idempotency w) e =
    ap idempotency (append-left_cancel (bytes ":idempotency:") e)
suffix-injective r s e = apart r s refl e

pub key-injective : (c : Config) (r s : Role) → key c r ≡ key c s → r ≡ s
key-injective c r s e =
    suffix-injective r s (append-left_cancel c.queue (sym (key-suffix c r) ∙ e ∙ key-suffix c s))

-- The keys depend on nothing but the queue's name.
pub key-same_queue : (c c' : Config) (r : Role) → c.queue ≡ c'.queue → key c r ≡ key c' r
key-same_queue c c' r e = key-suffix c r ∙ ap (λ q. q ++ suffix r) e ∙ sym (key-suffix c' r)

-- The signal list is none of the keys that are read after it is replaced.
pub signal-ne-active : (c : Config) → signal_list c ≢ active_jobs_list c
unfolding key
signal-ne-active c e = cc (key-injective c signal active e)

pub signal-ne-inflight : (c : Config) (w : Text) → signal_list c ≢ inflight_set_for c w
unfolding key
signal-ne-inflight c w e = cc (key-injective c signal (inflight w) e)

pub signal-ne-meta : (c : Config) (id : Text) → signal_list c ≢ job_meta_hash c ++ (bytes ":" ++ id)
unfolding key
signal-ne-meta c id e = cc (key-injective c signal (meta id) e)

abbrev last_byte : ℕ → Text → ℕ
last_byte b [] = b
last_byte b (c ∷ s) = last_byte c s

last_byte-append : (b : ℕ) (p : Text) (c : ℕ) (s : Text) → last_byte b (p ++ c ∷ s) ≡ last_byte c s
last_byte-append b [] c s = refl
last_byte-append b (a ∷ p) c s = last_byte-append a p c s

-- Nor is a queue's set of workers the list of all queues, which ends in another letter.
pub workers-ne-queues : (c : Config) → workers_set c ≢ bytes "core:apalis:queues:list"
unfolding workers_set
workers-ne-queues c e =
    absurd
      (omega (arith, sym (last_byte-append 0 c.queue b':' (bytes "workers")) ∙ ap (last_byte 0) e))

pub queues-ne-scheduled : (c : Config) → bytes "core:apalis:queues:list" ≢ scheduled_jobs_set c
unfolding scheduled_jobs_set
queues-ne-scheduled c e =
    absurd (omega (arith, ap (last_byte 0) e ∙ last_byte-append 0 c.queue b':' (bytes "scheduled")))

pub queues-ne-workers : (c : Config) → bytes "core:apalis:queues:list" ≢ workers_set c
queues-ne-workers c e = workers-ne-queues c (sym e)

pub inflight-ne-active : (c : Config) (w : Text) → inflight_set_for c w ≢ active_jobs_list c
unfolding key
inflight-ne-active c w e = cc (key-injective c (inflight w) active e)

pub inflight-ne-workers : (c : Config) (w : Text) → inflight_set_for c w ≢ workers_set c
unfolding key
inflight-ne-workers c w e = cc (key-injective c (inflight w) workers e)

pub signal-ne-workers : (c : Config) → signal_list c ≢ workers_set c
unfolding key
signal-ne-workers c e = cc (key-injective c signal workers e)

pub inflight-injective :
    (c : Config) (v w : Text) → inflight_set_for c v ≡ inflight_set_for c w → v ≡ w
unfolding key
inflight-injective c v w e = cc (key-injective c (inflight v) (inflight w) e)

pub signal-ne-scheduled : (c : Config) → signal_list c ≢ scheduled_jobs_set c
unfolding key
signal-ne-scheduled c e = cc (key-injective c signal scheduled e)

pub inflight-ne-done : (c : Config) (w : Text) → inflight_set_for c w ≢ done_jobs_set c
unfolding key
inflight-ne-done c w e = cc (key-injective c (inflight w) done e)

pub inflight-ne-dead : (c : Config) (w : Text) → inflight_set_for c w ≢ dead_jobs_set c
unfolding key
inflight-ne-dead c w e = cc (key-injective c (inflight w) dead e)

pub done-ne-dead : (c : Config) → done_jobs_set c ≢ dead_jobs_set c
unfolding key
done-ne-dead c e = cc (key-injective c done dead e)

pub meta-ne-data : (c : Config) (id : Text) → job_meta_hash c ++ (bytes ":" ++ id) ≢ job_data_hash c
unfolding key
meta-ne-data c id e = cc (key-injective c (meta id) data_hash e)

pub data-ne-meta : (c : Config) (id : Text) → job_data_hash c ≢ job_meta_hash c ++ (bytes ":" ++ id)
unfolding key
data-ne-meta c id e = cc (key-injective c data_hash (meta id) e)

pub idempotency-ne-active :
    (c : Config) (k : Text) → idempotency_key_set c ++ (bytes ":" ++ k) ≢ active_jobs_list c
unfolding key
idempotency-ne-active c k e = cc (key-injective c (idempotency k) active e)

pub idempotency-ne-data :
    (c : Config) (k : Text) → idempotency_key_set c ++ (bytes ":" ++ k) ≢ job_data_hash c
unfolding key
idempotency-ne-data c k e = cc (key-injective c (idempotency k) data_hash e)

pub idempotency-ne-scheduled :
    (c : Config) (k : Text) → idempotency_key_set c ++ (bytes ":" ++ k) ≢ scheduled_jobs_set c
unfolding key
idempotency-ne-scheduled c k e = cc (key-injective c (idempotency k) scheduled e)

pub idempotency-ne-meta :
    (c : Config) (k id : Text)
    → idempotency_key_set c ++ (bytes ":" ++ k) ≢ job_meta_hash c ++ (bytes ":" ++ id)
unfolding key
idempotency-ne-meta c k id e = cc (key-injective c (idempotency k) (meta id) e)

pub inflight-ne-scheduled : (c : Config) (w : Text) → inflight_set_for c w ≢ scheduled_jobs_set c
unfolding key
inflight-ne-scheduled c w e = cc (key-injective c (inflight w) scheduled e)

pub inflight-ne-data : (c : Config) (w : Text) → inflight_set_for c w ≢ job_data_hash c
unfolding key
inflight-ne-data c w e = cc (key-injective c (inflight w) data_hash e)

pub scheduled-ne-workers : (c : Config) → scheduled_jobs_set c ≢ workers_set c
unfolding key
scheduled-ne-workers c e = cc (key-injective c scheduled workers e)
