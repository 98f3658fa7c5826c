-- ===== src/Redis/Reference.antt =====
-- A server that meets the interface: its state is the keyspace itself, and sets, score ranges and
-- hashes are listed in the order in which they are stored.
use mathlib.Core.List.Perm
use apalis_redis.Prelude.{refl, none, some, [], ◌∷◌, ◌++◌, max, drop, if◌then◌else◌, ◌==◌}
use apalis_redis.Prelude.Assoc.{
  lookup, insert, insert_all, erase_all, contains, add_all, remove, remove_first,
}
use apalis_redis.Redis.{Redis, Keyspace, put, erased, below, range, between, fields_of}

abbrev pub reference : Redis
reference = record {
  Db = Keyspace;
  keyspace = λ d. d;
  cjson_lease = λ id name. id ++ name;
  lrange = λ d k e. range e (d.list k);
  sismember = λ d k m. contains m (d.set k);
  smembers = λ d k. d.set k;
  zscore = λ d k m. lookup m (d.zset k);
  zrangebyscore = λ d k top. below top (d.zset k);
  hget = λ d k f. lookup f (d.hash k);
  hgetall = λ d k. d.hash k;
  lrange_between = λ d k i j. between i j (d.list k);
  hkeys = λ d k. fields_of (d.hash k);
  zrange_all = λ d k. d.zset k;
  setnx = λ k v d. (
    elim (d.string k) [ none ↦ 1 | some _ ↦ 0 ],
    elim (d.string k) [
      | none ↦ record d { string = put d.string k (some v); ttl = put d.ttl k none }
      | some _ ↦ d
    ],
  );
  expire = λ k secs d. if secs == 0 then erased k d else record d { ttl = put d.ttl k (some secs) };
  del = λ k d. erased k d;
  rpush = λ k xs d. record d { list = put d.list k (d.list k ++ xs) };
  lpush = λ k x d. record d { list = put d.list k (x ∷ d.list k) };
  lrem_first = λ k x d. record d { list = put d.list k (remove_first x (d.list k)) };
  ltrim = λ k n d. record d { list = put d.list k (drop n (d.list k)) };
  sadd = λ k ms d. record d { set = put d.set k (add_all ms (d.set k)) };
  srem = λ k m d.
      (if contains m (d.set k) then 1 else 0, record d { set = put d.set k (remove m (d.set k)) });
  zadd = λ k score m d. record d { zset = put d.zset k (insert m score (d.zset k)) };
  zadd_gt = λ k score m d. record d {
    zset =
        put d.zset k (
          insert m (elim (lookup m (d.zset k)) [ none ↦ score | some s ↦ max s score ]) (d.zset k));
  };
  zrem = λ k ms d. record d { zset = put d.zset k (erase_all ms (d.zset k)) };
  hset = λ k fs d. record d { hash = put d.hash k (insert_all fs (d.hash k)) };
  hsetnx = λ k f v d. (
    elim (lookup f (d.hash k)) [ none ↦ 1 | some _ ↦ 0 ],
    elim (lookup f (d.hash k)) [
      | none ↦ record d { hash = put d.hash k (insert f v (d.hash k)) }
      | some _ ↦ d
    ],
  );
  hdel = λ k fs d. record d { hash = put d.hash k (erase_all fs (d.hash k)) };
  publish = λ c m d. record d { published = d.published ++ ((c, m) ∷ []) };
  lrange_lem = λ d k e. refl;
  sismember_lem = λ d k m. refl;
  smembers-perm = λ d k. Perm.refl (d.set k);
  zscore_lem = λ d k m. refl;
  zrangebyscore-perm = λ d k top. Perm.refl (below top (d.zset k));
  hget_lem = λ d k f. refl;
  hgetall-perm = λ d k. Perm.refl (d.hash k);
  lrange_between_lem = λ d k i j. refl;
  hkeys-perm = λ d k. Perm.refl (fields_of (d.hash k));
  zrange_all-perm = λ d k. Perm.refl (d.zset k);
  setnx_reply = λ k v d. refl;
  srem_reply = λ k m d. refl;
  hsetnx_reply = λ k f v d. refl;
  keyspace-setnx = λ k v d. refl;
  keyspace-expire = λ k secs d. refl;
  keyspace-del = λ k d. refl;
  keyspace-rpush = λ k xs d. refl;
  keyspace-lpush = λ k x d. refl;
  keyspace-lrem_first = λ k x d. refl;
  keyspace-ltrim = λ k n d. refl;
  keyspace-sadd = λ k ms d. refl;
  keyspace-srem = λ k m d. refl;
  keyspace-zadd = λ k score m d. refl;
  keyspace-zadd_gt = λ k score m d. refl;
  keyspace-zrem = λ k ms d. refl;
  keyspace-hset = λ k fs d. refl;
  keyspace-hsetnx = λ k f v d. refl;
  keyspace-hdel = λ k fs d. refl;
  keyspace-publish = λ c m d. refl;
}

-- A server that holds nothing.
abbrev pub blank : Keyspace
blank = record {
  string = λ k. none;
  ttl = λ k. none;
  list = λ k. [];
  set = λ k. [];
  zset = λ k. [];
  hash = λ k. [];
  published = [];
}
