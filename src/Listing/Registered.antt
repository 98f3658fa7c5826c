-- ===== src/Listing/Registered.antt =====
-- A registration shows in the listing of all workers.
use mathlib.Core.List.Perm
use mathlib.Core.List.Memᴰ
use mathlib.Core.Logic.Or
use apalis_redis.Prelude.{List}
use apalis_redis.Redis.{Redis}
use apalis_redis.Config.{Config}
