-- ===== src/Examples/Wakeups.antt =====
-- A task that polls a `Pubsub`, the factory's messages, and a storage that is closed.
use apalis_redis.Prelude.{
  ℕ, ◌≡◌, refl, ◌⊎◌, true, false, Option, none, some, [], ◌∷◌, Text, bytes, text_dec, if_neg, subst,
}
use apalis_redis.Prelude.Assoc.{lookup}
use apalis_redis.Redis.Reference.{reference}
use apalis_redis.Script.{ok}
use apalis_redis.Config.{Config}
use apalis_redis.Reply.{other, is_utf8}
use apalis_redis.Pubsub.{AtomicWaker, ready, pending, new, store, swap, register, poll_next}
use apalis_redis.Pubsub.Wakeups.{
  State, initial, registering, is_away, first_empty, registers, second_empty, stores, Reachable,
  start, further, Delivers, parked, parked-noticed, Reachable-Delivers,
}
use apalis_redis.Pubsub.Polling.{Steps, polled, poll_amid-Steps, storing, awakening}
use apalis_redis.Factory.{RedisStorageFactory, create_with_config, push_sender}
use apalis_redis.Factory.Channel.{has, announcement}
use apalis_redis.Factory.Dispatch.{create_with_config-wakes, push_sender-unheard}
use apalis_redis.Storage
use apalis_redis.Storage.{RedisStorage, poll_close}
use apalis_redis.Storage.Closing.{score, poll_close-score}
use apalis_redis.Examples.Fixture.{config, worker, server}

-- A cell that holds the waker itself.
abbrev atomic_waker : AtomicWaker
atomic_waker = record {
  Cell = Option ℕ;
  new = none;
  current = λ a. a;
  register = λ k a. some k;
  wake = λ a. (a, none);
  current-new = refl;
  current-register = λ k a. refl;
  current-wake = λ a. refl;
  wake_reply = λ a. refl;
}

-- The task has polled in vain, and then a signal has set the flag.
abbrev flagged : State atomic_waker 7
flagged = record {
  inner = record { waker = some 7; set = true };
  place = parked;
  notified = false;
  signalling = true;
}

flagged-Reachable : Reachable atomic_waker 7 flagged
unfolding new store swap register registering
flagged-Reachable =
    further
      (further (further (further start (first_empty is_away refl)) (registers refl))
        (second_empty refl refl))
      (stores refl)

parked-noticed_example : (flagged.notified ≡ true) ⊎ (flagged.signalling ≡ true)
parked-noticed_example = parked-noticed atomic_waker 7 flagged-Reachable refl refl

Reachable-Delivers_example : Delivers atomic_waker 7 flagged
Reachable-Delivers_example = Reachable-Delivers atomic_waker 7 flagged-Reachable refl

-- A signal stores its flag before the task registers, and wakes after.
abbrev amid_signal : State atomic_waker 7
amid_signal = polled atomic_waker 7 (storing ∷ []) (awakening ∷ []) (initial atomic_waker 7)

poll_amid-Steps_example : Steps atomic_waker 7 (initial atomic_waker 7) amid_signal
poll_amid-Steps_example =
    poll_amid-Steps atomic_waker 7 (storing ∷ []) (awakening ∷ []) (initial atomic_waker 7) is_away

abbrev factory : RedisStorageFactory atomic_waker
factory = record {
  registry = [];
  pubsubs = λ p. record { waker = none; set = false };
  fresh = 0;
  poisoned = false;
}

queue-is_utf8 : is_utf8 config.queue ≡ true
unfolding is_utf8
queue-is_utf8 = refl

queue-plain : has b':' config.queue ≡ false
unfolding has
queue-plain = refl

create_with_config-wakes_example :
    let (b, f') = create_with_config atomic_waker config factory in
    let f'' = (push_sender atomic_waker (announcement config other (bytes "t1")) f').1 in
    (b ≡ ok (record { config = config; poller = 0 }))
    × ((poll_next atomic_waker 7 (f'.pubsubs 0)).0 ≡ pending)
    × ((poll_next atomic_waker 7 (f''.pubsubs 0)).0 ≡ ready)
create_with_config-wakes_example =
    create_with_config-wakes atomic_waker config other (bytes "t1") 7 factory queue-is_utf8
      queue-plain refl

-- A queue that is named as a type is.
abbrev typed : Config
typed = record config { queue = bytes "crate::Email" }

abbrev typed_factory : RedisStorageFactory atomic_waker
typed_factory = record factory { registry = (bytes "crate::Email", 0) ∷ []; fresh = 1 }

abbrev zero_poller : ℕ
zero_poller = 0

only_typed : (q : Text) → lookup q typed_factory.registry ≡ some 0 → has b':' q ≡ true
unfolding lookup has
only_typed q e = elim (text_dec (bytes "crate::Email") q) [
  | yes i ↦ subst (λ t. has b':' t ≡ true) i refl
  | no n ↦ cc (e, if_neg (text_dec (bytes "crate::Email") q) n (some zero_poller) none)
]

push_sender-unheard_example :
    (push_sender atomic_waker (announcement typed other (bytes "t1")) typed_factory).1.pubsubs 0
    ≡ typed_factory.pubsubs 0
push_sender-unheard_example =
    push_sender-unheard atomic_waker (announcement typed other (bytes "t1")) 0 typed_factory
      only_typed

abbrev storage : RedisStorage
storage = record { config = config; cleanup = none }

poll_close-score_example :
    score reference worker true config
      (poll_close reference worker (Storage.ready (ok tt)) true storage server).2
    ≡ score reference worker true config server
poll_close-score_example =
    poll_close-score reference worker true (Storage.ready (ok tt)) storage server
