-- ===== src/Redis.antt =====
-- What the code relies on of a Redis server: the commands that the scripts and queries call, each
-- with its documented effect on the keyspace. The server itself is a parameter of the development.
mod Contents
pub mod Reference
pub mod Laws
use apalis_redis.Prelude.{
  ℕ, suc, ◌-◌, ◌≤◌, max, length, arith, ◌==◌, refl, if_pos, if_neg, ◌≢◌, ◌≡◌, Option, none, some,
  Bool, true, false, List, [], ◌∷◌, ◌++◌, Perm, Text, text_dec, ite, if◌then◌else◌, take, drop, leb,
}
use apalis_redis.Prelude.Assoc.{
  IsMap, lookup, insert, erase, insert_all, erase_all, contains, add_all, remove, remove_first,
}
use apalis_redis.Prelude.Counting.{count, count_keys}
pub use Contents.{
  Keyspace, put_self, put-ne, erased, contains-below, below-present, count-below, Stop, at, last,
  Index, front, back,
}
unfoldable pub use Contents.{put, below, range, before, upto, between, fields_of}

pub record Redis : Type 1 where
  pub Db : Type 0
  pub keyspace : Db → Keyspace
  -- `cjson.encode({task_id = id, worker = name})`
  pub cjson_lease : Text → Text → Text
  -- Readings.
  pub lrange : Db → Text → Stop → List Text
  pub sismember : Db → Text → Text → Bool
  pub smembers : Db → Text → List Text
  pub zscore : Db → Text → Text → Option ℕ
  pub zrangebyscore : Db → Text → ℕ → List Text
  pub hget : Db → Text → Text → Option Text
  pub hgetall : Db → Text → List (Text × Text)
  pub lrange_between : Db → Text → Index → Index → List Text
  pub hkeys : Db → Text → List Text
  -- `ZRANGE key 0 -1 WITHSCORES`
  pub zrange_all : Db → Text → List (Text × ℕ)
  -- Commands that write; three of them reply with the number of entries that they changed.
  pub setnx : Text → Text → Db → ℕ × Db
  pub expire : Text → ℕ → Db → Db
  pub del : Text → Db → Db
  pub rpush : Text → List Text → Db → Db
  pub lpush : Text → Text → Db → Db
  pub lrem_first : Text → Text → Db → Db
  pub ltrim : Text → ℕ → Db → Db
  pub sadd : Text → List Text → Db → Db
  pub srem : Text → Text → Db → ℕ × Db
  pub zadd : Text → ℕ → Text → Db → Db
  pub zadd_gt : Text → ℕ → Text → Db → Db
  pub zrem : Text → List Text → Db → Db
  pub hset : Text → List (Text × Text) → Db → Db
  pub hsetnx : Text → Text → Text → Db → ℕ × Db
  pub hdel : Text → List Text → Db → Db
  pub publish : Text → Text → Db → Db
  -- Replies to readings. Sets, score ranges and hashes come in an order of the server's choice.
  pub lrange_lem : (d : Db) (k : Text) (e : Stop) → lrange d k e ≡ range e ((keyspace d).list k)
  pub sismember_lem : (d : Db) (k m : Text) → sismember d k m ≡ contains m ((keyspace d).set k)
  pub smembers-perm : (d : Db) (k : Text) → Perm (smembers d k) ((keyspace d).set k)
  pub zscore_lem : (d : Db) (k m : Text) → zscore d k m ≡ lookup m ((keyspace d).zset k)
  pub zrangebyscore-perm :
      (d : Db) (k : Text) (max : ℕ) → Perm (zrangebyscore d k max) (below max ((keyspace d).zset k))
  pub hget_lem : (d : Db) (k f : Text) → hget d k f ≡ lookup f ((keyspace d).hash k)
  pub hgetall-perm : (d : Db) (k : Text) → Perm (hgetall d k) ((keyspace d).hash k)
  pub lrange_between_lem :
      (d : Db) (k : Text) (i j : Index) → lrange_between d k i j ≡ between i j ((keyspace d).list k)
  pub hkeys-perm : (d : Db) (k : Text) → Perm (hkeys d k) (fields_of ((keyspace d).hash k))
  pub zrange_all-perm : (d : Db) (k : Text) → Perm (zrange_all d k) ((keyspace d).zset k)
  -- Replies to writes.
  pub setnx_reply :
      (k v : Text) (d : Db)
      → (setnx k v d).0 ≡ elim ((keyspace d).string k) [ none ↦ 1 | some _ ↦ 0 ]
  pub srem_reply :
      (k m : Text) (d : Db) → (srem k m d).0 ≡ (if contains m ((keyspace d).set k) then 1 else 0)
  pub hsetnx_reply :
      (k f v : Text) (d : Db)
      → (hsetnx k f v d).0 ≡ elim (lookup f ((keyspace d).hash k)) [ none ↦ 1 | some _ ↦ 0 ]
  -- Effects on the keyspace.
  pub keyspace-setnx :
      (k v : Text) (d : Db)
      → keyspace (setnx k v d).1 ≡ elim ((keyspace d).string k) [
        | none ↦ record (keyspace d) {
          string = put (keyspace d).string k (some v);
          ttl = put (keyspace d).ttl k none;
        }
        | some _ ↦ keyspace d
      ]
  -- A time to live of zero removes the key at once.
  pub keyspace-expire :
      (k : Text) (secs : ℕ) (d : Db)
      → keyspace (expire k secs d) ≡ (
          if secs == 0
          then erased k (keyspace d)
          else record (keyspace d) { ttl = put (keyspace d).ttl k (some secs) })
  pub keyspace-del : (k : Text) (d : Db) → keyspace (del k d) ≡ erased k (keyspace d)
  pub keyspace-rpush :
      (k : Text) (xs : List Text) (d : Db)
      → keyspace (rpush k xs d)
        ≡ record (keyspace d) { list = put (keyspace d).list k ((keyspace d).list k ++ xs) }
  pub keyspace-lpush :
      (k x : Text) (d : Db)
      → keyspace (lpush k x d)
        ≡ record (keyspace d) { list = put (keyspace d).list k (x ∷ (keyspace d).list k) }
  pub keyspace-lrem_first :
      (k x : Text) (d : Db)
      → keyspace (lrem_first k x d) ≡ record (keyspace d) {
        list = put (keyspace d).list k (remove_first x ((keyspace d).list k));
      }
  pub keyspace-ltrim :
      (k : Text) (n : ℕ) (d : Db)
      → keyspace (ltrim k n d)
        ≡ record (keyspace d) { list = put (keyspace d).list k (drop n ((keyspace d).list k)) }
  pub keyspace-sadd :
      (k : Text) (ms : List Text) (d : Db)
      → keyspace (sadd k ms d)
        ≡ record (keyspace d) { set = put (keyspace d).set k (add_all ms ((keyspace d).set k)) }
  pub keyspace-srem :
      (k m : Text) (d : Db)
      → keyspace (srem k m d).1
        ≡ record (keyspace d) { set = put (keyspace d).set k (remove m ((keyspace d).set k)) }
  pub keyspace-zadd :
      (k : Text) (score : ℕ) (m : Text) (d : Db)
      → keyspace (zadd k score m d) ≡ record (keyspace d) {
        zset = put (keyspace d).zset k (insert m score ((keyspace d).zset k));
      }
  -- With GT a present member's score only grows.
  pub keyspace-zadd_gt :
      (k : Text) (score : ℕ) (m : Text) (d : Db)
      → keyspace (zadd_gt k score m d) ≡ record (keyspace d) {
        zset = put (keyspace d).zset k (
            insert m
              (elim (lookup m ((keyspace d).zset k)) [ none ↦ score | some s ↦ max s score ])
              ((keyspace d).zset k));
      }
  pub keyspace-zrem :
      (k : Text) (ms : List Text) (d : Db)
      → keyspace (zrem k ms d) ≡ record (keyspace d) {
        zset = put (keyspace d).zset k (erase_all ms ((keyspace d).zset k));
      }
  pub keyspace-hset :
      (k : Text) (fs : List (Text × Text)) (d : Db)
      → keyspace (hset k fs d) ≡ record (keyspace d) {
        hash = put (keyspace d).hash k (insert_all fs ((keyspace d).hash k));
      }
  pub keyspace-hsetnx :
      (k f v : Text) (d : Db)
      → keyspace (hsetnx k f v d).1 ≡ elim (lookup f ((keyspace d).hash k)) [
        | none ↦ record (keyspace d) {
          hash = put (keyspace d).hash k (insert f v ((keyspace d).hash k));
        }
        | some _ ↦ keyspace d
      ]
  pub keyspace-hdel :
      (k : Text) (fs : List Text) (d : Db)
      → keyspace (hdel k fs d) ≡ record (keyspace d) {
        hash = put (keyspace d).hash k (erase_all fs ((keyspace d).hash k));
      }
  pub keyspace-publish :
      (c m : Text) (d : Db)
      → keyspace (publish c m d)
        ≡ record (keyspace d) { published = (keyspace d).published ++ ((c, m) ∷ []) }
