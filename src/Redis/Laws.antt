-- ===== src/Redis/Laws.antt =====
-- The effects of the commands as equations, in one rule set: `simp effects` computes what a script
-- leaves in the keyspace.
use apalis_redis.Prelude.{
  ℕ, max, ◌≡◌, none, some, List, [], ◌∷◌, ◌++◌, Text, if◌then◌else◌, ◌==◌, drop,
}
use apalis_redis.Prelude.Assoc.{
  lookup, insert, insert_all, erase_all, add_all, remove, remove_first,
}
use apalis_redis.Redis.{Redis, Keyspace, put, put_self, erased}

module _ (R : Redis) where
  open R use {
    Db, keyspace, setnx, expire, del, rpush, lpush, lrem_first, ltrim, sadd, srem, zadd, zadd_gt,
    zrem, hset, hsetnx, hdel, publish,
  }

  pub keyspace-setnx :
      (k v : Text) (d : Db)
      → keyspace (setnx k v d).1 ≡ elim ((keyspace d).string k) [
        | none ↦ record (keyspace d) {
          string = put (keyspace d).string k (some v);
          ttl = put (keyspace d).ttl k none;
        }
        | some _ ↦ keyspace d
      ]
  keyspace-setnx k v d = R.keyspace-setnx k v d

  pub keyspace-expire :
      (k : Text) (secs : ℕ) (d : Db)
      → keyspace (expire k secs d) ≡ (
          if secs == 0
          then erased k (keyspace d)
          else record (keyspace d) { ttl = put (keyspace d).ttl k (some secs) })
  keyspace-expire k secs d = R.keyspace-expire k secs d

  pub keyspace-del : (k : Text) (d : Db) → keyspace (del k d) ≡ erased k (keyspace d)
  keyspace-del k d = R.keyspace-del k d

  pub keyspace-rpush :
      (k : Text) (xs : List Text) (d : Db)
      → keyspace (rpush k xs d)
        ≡ record (keyspace d) { list = put (keyspace d).list k ((keyspace d).list k ++ xs) }
  keyspace-rpush k xs d = R.keyspace-rpush k xs d

  pub keyspace-lpush :
      (k x : Text) (d : Db)
      → keyspace (lpush k x d)
        ≡ record (keyspace d) { list = put (keyspace d).list k (x ∷ (keyspace d).list k) }
  keyspace-lpush k x d = R.keyspace-lpush k x d

  pub keyspace-lrem_first :
      (k x : Text) (d : Db)
      → keyspace (lrem_first k x d) ≡ record (keyspace d) {
        list = put (keyspace d).list k (remove_first x ((keyspace d).list k));
      }
  keyspace-lrem_first k x d = R.keyspace-lrem_first k x d

  pub keyspace-ltrim :
      (k : Text) (n : ℕ) (d : Db)
      → keyspace (ltrim k n d)
        ≡ record (keyspace d) { list = put (keyspace d).list k (drop n ((keyspace d).list k)) }
  keyspace-ltrim k n d = R.keyspace-ltrim k n d

  pub keyspace-sadd :
      (k : Text) (ms : List Text) (d : Db)
      → keyspace (sadd k ms d)
        ≡ record (keyspace d) { set = put (keyspace d).set k (add_all ms ((keyspace d).set k)) }
  keyspace-sadd k ms d = R.keyspace-sadd k ms d

  pub keyspace-srem :
      (k m : Text) (d : Db)
      → keyspace (srem k m d).1
        ≡ record (keyspace d) { set = put (keyspace d).set k (remove m ((keyspace d).set k)) }
  keyspace-srem k m d = R.keyspace-srem k m d

  pub keyspace-zadd :
      (k : Text) (score : ℕ) (m : Text) (d : Db)
      → keyspace (zadd k score m d) ≡ record (keyspace d) {
        zset = put (keyspace d).zset k (insert m score ((keyspace d).zset k));
      }
  keyspace-zadd k score m d = R.keyspace-zadd k score m d

  pub keyspace-zadd_gt :
      (k : Text) (score : ℕ) (m : Text) (d : Db)
      → keyspace (zadd_gt k score m d) ≡ record (keyspace d) {
        zset = put (keyspace d).zset k (
            insert m
              (elim (lookup m ((keyspace d).zset k)) [ none ↦ score | some s ↦ max s score ])
              ((keyspace d).zset k));
      }
  keyspace-zadd_gt k score m d = R.keyspace-zadd_gt k score m d

  pub keyspace-zrem :
      (k : Text) (ms : List Text) (d : Db)
      → keyspace (zrem k ms d) ≡ record (keyspace d) {
        zset = put (keyspace d).zset k (erase_all ms ((keyspace d).zset k));
      }
  keyspace-zrem k ms d = R.keyspace-zrem k ms d

  pub keyspace-hset :
      (k : Text) (fs : List (Text × Text)) (d : Db)
      → keyspace (hset k fs d) ≡ record (keyspace d) {
        hash = put (keyspace d).hash k (insert_all fs ((keyspace d).hash k));
      }
  keyspace-hset k fs d = R.keyspace-hset k fs d

  pub keyspace-hsetnx :
      (k f v : Text) (d : Db)
      → keyspace (hsetnx k f v d).1 ≡ elim (lookup f ((keyspace d).hash k)) [
        | none ↦ record (keyspace d) {
          hash = put (keyspace d).hash k (insert f v ((keyspace d).hash k));
        }
        | some _ ↦ keyspace d
      ]
  keyspace-hsetnx k f v d = R.keyspace-hsetnx k f v d

  pub keyspace-hdel :
      (k : Text) (fs : List Text) (d : Db)
      → keyspace (hdel k fs d) ≡ record (keyspace d) {
        hash = put (keyspace d).hash k (erase_all fs ((keyspace d).hash k));
      }
  keyspace-hdel k fs d = R.keyspace-hdel k fs d

  pub keyspace-publish :
      (c m : Text) (d : Db)
      → keyspace (publish c m d)
        ≡ record (keyspace d) { published = (keyspace d).published ++ ((c, m) ∷ []) }
  keyspace-publish c m d = R.keyspace-publish c m d

pub ruleset effects = (
  keyspace-setnx, keyspace-expire, keyspace-del, keyspace-rpush, keyspace-lpush,
  keyspace-lrem_first, keyspace-ltrim, keyspace-sadd, keyspace-srem, keyspace-zadd,
  keyspace-zadd_gt, keyspace-zrem, keyspace-hset, keyspace-hsetnx, keyspace-hdel, keyspace-publish,
  put_self,
)
