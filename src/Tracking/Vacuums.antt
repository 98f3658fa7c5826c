-- ===== src/Tracking/Vacuums.antt =====
-- The vacuums, as an invariant sees them that the deletion of a task's data cannot break.
use apalis_redis.Prelude.{ℕ, Bool, suc, if◌then◌else◌, Option, List, [], ◌∷◌, Text, bytes}
use apalis_redis.Redis.{Redis}
use apalis_redis.Script.{nil_comparison}
use apalis_redis.Config.{Config, job_meta_hash, job_data_hash}
use apalis_redis.Lease.{meta_key}
use apalis_redis.Vacuum.{
  terminal, delete_task, vacuum_all, vacuum_lua, vacuum, aged, vacuum_before_all, vacuum_before_lua,
  vacuum_before,
}
use apalis_redis.Tracking.Kit.{Kit}
use apalis_redis.Tracking.Keeps.{Keeps, after, when-Keeps, require-Keeps, invoke-Keeps}
use apalis_redis.Tracking.Frame.{hdel-Framed, del-Framed}
use apalis_redis.Tracking.Scripts.{meta-IsAside, framed}

module _ (R : Redis) (c : Config) (K : Kit R c)
    (forget : (id : Text) (d : R.Db) → K.P d → K.P (R.hdel (job_data_hash c) (id ∷ []) d)) where
  open R use {Db}
  open K use {P}

  delete_task-Kept : (id : Text) → Keeps P (delete_task R (job_data_hash c) (job_meta_hash c) id)
  unfolding delete_task
  delete_task-Kept id = record {
    keep = λ d p.
        framed R c K (del-Framed R c _ (meta-IsAside c id) _)
          (framed R c K (hdel-Framed R c _ (meta-IsAside c (bytes "result")) _ _) (forget id d p));
  }

  vacuum_all-Kept :
      (fields : List (Text × Text)) (n : ℕ)
      → Keeps P (vacuum_all R (job_data_hash c) (job_meta_hash c) fields n)
  unfolding vacuum_all
  vacuum_all-Kept [] n = record { keep = λ d p. p }
  vacuum_all-Kept ((id, v) ∷ fields) n = record {
    keep = λ d p.
        let over = terminal (R.hget d (meta_key (job_meta_hash c) id) (bytes "status")) in
        after P _ (when-Keeps P over (delete_task-Kept id)) p
          λ _. (vacuum_all-Kept fields (if over then suc n else n)).keep;
  }

  vacuum_lua-Kept : Keeps P (vacuum_lua R (job_data_hash c) (job_meta_hash c))
  unfolding vacuum_lua
  vacuum_lua-Kept = record {
    keep = λ d p. (vacuum_all-Kept (R.hgetall d (job_data_hash c)) 0).keep d p;
  }

  pub vacuum-Kept : Keeps P (vacuum R c)
  unfolding vacuum
  vacuum-Kept = record { keep = λ d p. (invoke-Keeps P vacuum_lua-Kept).keep d p }

  module _ (tonumber : Text → Option ℕ) (time secs : ℕ) where
    vacuum_before_all-Kept :
        (fields : List (Text × Text)) (n : ℕ)
        → Keeps P
            (vacuum_before_all R tonumber (job_data_hash c) (job_meta_hash c) time secs fields n)
    unfolding vacuum_before_all
    vacuum_before_all-Kept [] n = record { keep = λ d p. p }
    vacuum_before_all-Kept ((id, v) ∷ fields) n = record {
      keep = λ d p. after P _ (require-Keeps P (read d id) nil_comparison) p λ old d p.
          after P _ (when-Keeps P old (delete_task-Kept id)) p
            λ _. (vacuum_before_all-Kept fields (if old then suc n else n)).keep;
    }
      where
        read : Db → Text → Option Bool
        read d id =
            aged tonumber time secs (R.hget d (meta_key (job_meta_hash c) id) (bytes "status"))
              (R.hget d (meta_key (job_meta_hash c) id) (bytes "done_at"))

    pub vacuum_before-Kept :
        (nanos : ℕ)
        → Keeps P (vacuum_before R tonumber c time (record { secs = secs; nanos = nanos }))
    unfolding vacuum_before vacuum_before_lua
    vacuum_before-Kept nanos = record { keep = λ d p. (invoke-Keeps P (whole d)).keep d p }
      where
        whole :
            (d : Db)
            → Keeps P (vacuum_before_lua R tonumber (job_data_hash c) (job_meta_hash c) time secs)
        whole d = record {
          keep = λ d p. (vacuum_before_all-Kept (R.hgetall d (job_data_hash c)) 0).keep d p;
        }
