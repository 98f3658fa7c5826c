-- ===== src/Factory.antt =====
-- `RedisStorageFactory` of src/factory.rs: one connection shared by the storages of several queues,
-- and the registry by which a published message wakes the workers of its queue.
pub mod Channel
pub mod Dispatch
use apalis_redis.Prelude.{
  ℕ, suc, Bool, true, false, Option, none, some, List, [], ◌∷◌, Text, bytes, text_dec, ite,
  ℕ_discrete, ◌==◌, if◌then◌else◌,
}
use apalis_redis.Prelude.Assoc.{lookup, insert}
use apalis_redis.Script.{Action, Query, Result, ok, err, panic}
use apalis_redis.Config.{Config, queue, default}
use apalis_redis.Reply.{Value, bulk_string, is_utf8}
use apalis_redis.Pubsub.{AtomicWaker, Inner, new, signal}

abbrev pub cons_first : ℕ → List Text → List Text
cons_first b [] = (b ∷ []) ∷ []
cons_first b (p ∷ ps) = (b ∷ p) ∷ ps

-- `str::split(sep)`: the parts between the separators, one more than there are separators.
unfoldable pub split : ℕ → Text → List Text
split sep [] = [] ∷ []
split sep (b ∷ s) = let rest = split sep s in if b == sep then [] ∷ rest else cons_first b rest

-- The second, third and fourth of at least four parts.
unfoldable pub middle_parts : List Text → Option (Text × Text × Text)
middle_parts (first ∷ namespace ∷ action ∷ signal ∷ rest) = some (namespace, action, signal)
middle_parts _ = none

-- `push` is the data of the `PushInfo`, of which the second entry is the channel.
unfoldable pub parse_channel_info : List Value → Option (Text × Text × Text)
parse_channel_info (kind ∷ bulk_string channel ∷ rest) =
    if is_utf8 channel then middle_parts (split b':' channel) else none
parse_channel_info _ = none

-- `redis::aio::SendError`
pub data SendError : Type 0 where
  send_error : SendError

module _ (A : AtomicWaker) where
  -- The registry maps a queue to its `Pubsub`, which several owners share; here a `Pubsub` is a number,
  -- and `pubsubs` holds what each shares. `poisoned`: a thread panicked while it held the registry.
  pub record RedisStorageFactory : Type 0 where
    pub registry : List (Text × ℕ)
    pub pubsubs : ℕ → Inner A
    pub fresh : ℕ
    pub poisoned : Bool

  -- A storage with the settings `config` that polls the `Pubsub` numbered `poller`.
  pub record Backend : Type 0 where
    pub config : Config
    pub poller : ℕ

  unfoldable pub set_pubsub : (ℕ → Inner A) → ℕ → Inner A → ℕ → Inner A
  set_pubsub f k s j = ite (ℕ_discrete k j) s (f j)

  unfoldable pub signalled : Option ℕ → Action RedisStorageFactory SendError (Option ℕ)
  signalled none f = (ok none, f)
  signalled (some p) f =
      let (woken, inner) = signal A (f.pubsubs p) in
      (ok woken, record f { pubsubs = set_pubsub f.pubsubs p inner })

  unfoldable pub dispatched :
      Option (Text × Text × Text) → Action RedisStorageFactory SendError (Option ℕ)
  dispatched none f = (ok none, f)
  dispatched (some (namespace, action, signal)) f =
      ite (text_dec signal (bytes "available")) (signalled (lookup namespace f.registry) f)
        (ok none, f)

  -- What `new` makes the connection do with a message; it replies with the waker that was woken.
  unfoldable pub push_sender : List Value → Action RedisStorageFactory SendError (Option ℕ)
  push_sender msg f =
      if f.poisoned then (err send_error, f) else dispatched (parse_channel_info msg) f

  unfoldable pub create_with_config : Config → Query RedisStorageFactory Backend
  create_with_config c f = if f.poisoned then (err panic, f) else (
    ok (record { config = c; poller = f.fresh }),
    record f {
      registry = insert c.queue f.fresh f.registry;
      pubsubs = set_pubsub f.pubsubs f.fresh (new A);
      fresh = suc f.fresh;
    },
  )

  -- `type_name` is what `std::any::type_name::<Args>()` returns.
  unfoldable pub create : Text → Query RedisStorageFactory Backend
  create type_name = create_with_config (queue type_name default)
