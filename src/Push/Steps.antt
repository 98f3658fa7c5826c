-- ===== src/Push/Steps.antt =====
-- The steps of lua/batch_push.lua: claiming the idempotency key, storing the task.
use apalis_redis.Prelude.{
  ℕ, ◌≡◌, refl, ◌≢◌, inl, inr, Bool, true, false, none, some, [], ◌∷◌, Text, ◌==◌, Bool-cases,
  Option-cases,
}
use apalis_redis.Redis.{Redis, Keyspace, put-ne}
use apalis_redis.Redis.Laws.{effects}
use apalis_redis.Script.{ok}
use apalis_redis.Lease.{meta_key}
use apalis_redis.Push.{claim}

-- Whether a key is free; a task without a key needs none.
unfoldable pub free : Text → Text → Keyspace → Bool
free prefix [] k = true
free prefix (b ∷ key) k = elim (k.string (meta_key prefix (b ∷ key))) [
  | none ↦ true
  | some _ ↦ false
]

module _ (R : Redis) (prefix : Text) (ttl : ℕ) where
  open R use {Db, keyspace}

  -- The state once a key is claimed, or found taken.
  abbrev pub claimed : Text → Text → Db → Db
  claimed key id d = (claim R prefix ttl key id d).1

  pub claim-run :
      (key id : Text) (d : Db)
      → claim R prefix ttl key id d ≡ (ok (free prefix key (keyspace d)), claimed key id d)
  unfolding claim free
  claim-run [] id d = refl
  claim-run (b ∷ key) id d = elim (Option-cases ((keyspace d).string (meta_key prefix (b ∷ key)))) [
    | inl e ↦ rw (claimed, claim, free, R.setnx_reply (meta_key prefix (b ∷ key)) id d, e)
    | inr (v, e) ↦ rw (claimed, claim, free, R.setnx_reply (meta_key prefix (b ∷ key)) id d, e)
  ]

  -- Only the key itself can change.
  pub claimed-rest :
      (key id k : Text) (d : Db)
      → meta_key prefix key ≢ k
      → ((keyspace (claimed key id d)).list k ≡ (keyspace d).list k)
        × ((keyspace (claimed key id d)).zset k ≡ (keyspace d).zset k)
        × ((keyspace (claimed key id d)).hash k ≡ (keyspace d).hash k)
  unfolding claim
  claimed-rest [] id k d ne = (refl, refl, refl)
  claimed-rest (b ∷ key) id k d ne =
      elim (Option-cases ((keyspace d).string (meta_key prefix (b ∷ key)))) [
        | inl e ↦
            rw (claimed, claim, R.setnx_reply (meta_key prefix (b ∷ key)) id d, e)
              (elim (Bool-cases (ttl == 0)) [
                | inl z ↦
                    simp effects
                      (rw (z, e) (put-ne _ _ _ k ne, put-ne _ _ _ k ne, put-ne _ _ _ k ne))
                | inr z ↦ simp effects (rw (z, e) (refl, refl, refl))
              ])
        | inr (v, e) ↦
            rw (claimed, claim, R.setnx_reply (meta_key prefix (b ∷ key)) id d, e)
              (simp effects (rw e (refl, refl, refl)))
      ]
