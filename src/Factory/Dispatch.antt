-- ===== src/Factory/Dispatch.antt =====
-- Which `Pubsub` a message of the server signals.
use apalis_redis.Prelude.{
  ℕ, suc, ◌≡◌, ◌≢◌, refl, ◌∙◌, ap, inl, inr, true, false, Option, none, some, List, Text, bytes,
  text_dec, if_pos, if_neg, ℕ_discrete, if◌then◌else◌, Bool-cases,
}
use apalis_redis.Prelude.Assoc.{lookup, insert, lookup-insert}
use apalis_redis.Script.{Result, ok, err, panic}
use apalis_redis.Config.{Config}
use apalis_redis.Reply.{Value, is_utf8}
use apalis_redis.Pubsub.{
  poll_amid, AtomicWaker, Inner, ready, pending, new, signal, store, wake, swap, register,
  poll_next,
}
use apalis_redis.Factory.{
  RedisStorageFactory, SendError, send_error, set_pubsub, signalled, dispatched, push_sender,
  parse_channel_info, create_with_config,
}
use apalis_redis.Factory.Channel.{
  has, announcement, parse_channel_info-announcement, parse_channel_info-clean,
}

module _ (A : AtomicWaker) where
  set_pubsub_self : (f : ℕ → Inner A) (p : ℕ) (s : Inner A) → set_pubsub A f p s p ≡ s
  unfolding set_pubsub
  set_pubsub_self f p s = if_pos (ℕ_discrete p p) refl s (f p)

  set_pubsub-ne : (f : ℕ → Inner A) (p h : ℕ) (s : Inner A) → p ≢ h → set_pubsub A f p s h ≡ f h
  unfolding set_pubsub
  set_pubsub-ne f p h s n = if_neg (ℕ_discrete p h) n s (f h)

  available :
      (f : RedisStorageFactory A) (ns act : Text)
      → dispatched A (some (ns, act, bytes "available")) f ≡ signalled A (lookup ns f.registry) f
  unfolding dispatched
  available f ns act = if_pos (text_dec (bytes "available") (bytes "available")) refl _ _

  -- When a task of a queue is announced, the factory signals the `Pubsub` that is registered for the
  -- queue and no other, if the queue's name is UTF-8 without a colon and the registry is not poisoned.
  pub push_sender-announcement :
      (c : Config) (kind : Value) (payload : Text) (p : ℕ) (f : RedisStorageFactory A)
      → is_utf8 c.queue ≡ true
      → has b':' c.queue ≡ false
      → f.poisoned ≡ false
      → lookup c.queue f.registry ≡ some p
      → push_sender A (announcement c kind payload) f ≡ (
        ok (signal A (f.pubsubs p)).0,
        record f { pubsubs = set_pubsub A f.pubsubs p (signal A (f.pubsubs p)).1 },
      )
  unfolding push_sender signalled
  push_sender-announcement c kind payload p f u h n r =
      ap
        (λ b.
          if b
          then (err send_error, f)
          else dispatched A (parse_channel_info (announcement c kind payload)) f)
        n
      ∙ ap (λ o. dispatched A o f) (parse_channel_info-announcement c kind payload u h)
      ∙ available f c.queue (bytes "active")
      ∙ ap (λ o. signalled A o f) r

  ready-signal : (k : ℕ) (s : Inner A) → (poll_next A k (signal A s).1).0 ≡ ready
  unfolding poll_amid signal store wake swap
  ready-signal k s = refl

  pending-new : (k : ℕ) → (poll_next A k (new A)).0 ≡ pending
  unfolding poll_amid new swap register
  pending-new k = refl

  module _ (c : Config) (kind : Value) (payload : Text) (k : ℕ) (f : RedisStorageFactory A)
      (u : is_utf8 c.queue ≡ true) (h : has b':' c.queue ≡ false) (n : f.poisoned ≡ false) where
    -- The state that creating a storage for the queue leaves.
    abbrev created : RedisStorageFactory A
    created = record f {
      registry = insert c.queue f.fresh f.registry;
      pubsubs = set_pubsub A f.pubsubs f.fresh (new A);
      fresh = suc f.fresh;
    }

    create-created :
        create_with_config A c f ≡ (ok (record { config = c; poller = f.fresh }), created)
    unfolding create_with_config
    create-created =
        ap
          (λ b.
            if b then (err panic, f) else (ok (record { config = c; poller = f.fresh }), created))
          n

    heard : push_sender A (announcement c kind payload) created ≡ (
      ok (signal A (new A)).0,
      record created { pubsubs = set_pubsub A created.pubsubs f.fresh (signal A (new A)).1 },
    )
    heard =
        push_sender-announcement c kind payload f.fresh created u h n (
          lookup-insert c.queue c.queue f.fresh f.registry
          ∙ if_pos (text_dec c.queue c.queue) refl (some f.fresh) (lookup c.queue f.registry))
        ∙ ap
            (λ s. (
              ok (signal A s).0,
              record created { pubsubs = set_pubsub A created.pubsubs f.fresh (signal A s).1 },
            ))
            (set_pubsub_self f.pubsubs f.fresh (new A))

    -- The backend that a factory creates for a queue is woken by the queue's tasks: its `Pubsub` is
    -- pending at first, and ready once a task of the queue is announced, if the queue's name is UTF-8
    -- without a colon and the registry is not poisoned.
    pub create_with_config-wakes :
        let (b, f') = create_with_config A c f in
        let f'' = (push_sender A (announcement c kind payload) f').1 in
        (b ≡ ok (record { config = c; poller = f.fresh }))
        × ((poll_next A k (f'.pubsubs f.fresh)).0 ≡ pending)
        × ((poll_next A k (f''.pubsubs f.fresh)).0 ≡ ready)
    create_with_config-wakes =
        let e = create-created in
        (
          ap (λ r. r.0) e,
          ap (λ r. (poll_next A k (r.1.pubsubs f.fresh)).0) e
              ∙ ap (λ s. (poll_next A k s).0) (set_pubsub_self f.pubsubs f.fresh (new A))
              ∙ pending-new k,
          ap
                (λ r.
                  (poll_next A k
                    ((push_sender A (announcement c kind payload) r.1).1.pubsubs f.fresh)).0)
                e
              ∙ ap (λ r. (poll_next A k (r.1.pubsubs f.fresh)).0) heard
              ∙ ap (λ s. (poll_next A k s).0)
                  (set_pubsub_self created.pubsubs f.fresh (signal A (new A)).1)
              ∙ ready-signal k (new A),
        )

  module _ (h : ℕ) (f : RedisStorageFactory A)
      (only : (q : Text) → lookup q f.registry ≡ some h → has b':' q ≡ true) where
    signalled-apart :
        (ns : Text) (o : Option ℕ)
        → has b':' ns ≡ false
        → lookup ns f.registry ≡ o
        → (signalled A o f).1.pubsubs h ≡ f.pubsubs h
    unfolding signalled
    signalled-apart ns none g e = refl
    signalled-apart ns (some p) g e =
        set_pubsub-ne f.pubsubs p h _ (λ q. cc (only ns (e ∙ ap some q), g))

    dispatched-apart :
        (o : Option (Text × Text × Text))
        → ((ns act sig : Text) → o ≡ some (ns, act, sig) → has b':' ns ≡ false)
        → (dispatched A o f).1.pubsubs h ≡ f.pubsubs h
    unfolding dispatched
    dispatched-apart none g = refl
    dispatched-apart (some (ns, act, sig)) g = elim (text_dec sig (bytes "available")) [
      | yes e ↦
          ap (λ (r : Result SendError (Option ℕ) × RedisStorageFactory A). r.1.pubsubs h)
            (if_pos (text_dec sig (bytes "available")) e _ (ok none, f))
          ∙ signalled-apart ns (lookup ns f.registry) (g ns act sig refl) refl
      | no e ↦
          ap (λ (r : Result SendError (Option ℕ) × RedisStorageFactory A). r.1.pubsubs h)
            (if_neg (text_dec sig (bytes "available")) e (signalled A (lookup ns f.registry) f) _)
    ]

  -- A message signals no `Pubsub` that is registered under names with a colon alone: the workers of
  -- such a queue are never woken.
  pub push_sender-unheard :
      (msg : List Value) (h : ℕ) (f : RedisStorageFactory A)
      → ((q : Text) → lookup q f.registry ≡ some h → has b':' q ≡ true)
      → (push_sender A msg f).1.pubsubs h ≡ f.pubsubs h
  unfolding push_sender
  push_sender-unheard msg h f only = elim (Bool-cases f.poisoned) [
    | inl e ↦
        ap
          (λ b.
            (if b then (err send_error, f) else dispatched A (parse_channel_info msg) f).1.pubsubs
              h)
          e
    | inr e ↦
        ap
          (λ b.
            (if b then (err send_error, f) else dispatched A (parse_channel_info msg) f).1.pubsubs
              h)
          e
        ∙ dispatched-apart h f only (parse_channel_info msg) (parse_channel_info-clean msg)
  ]
