-- ===== src/Fetch/Batch.antt =====
-- The steps of lua/fetch_next.lua: promotion, the batch, and the signal.
use apalis_redis.Prelude.{
  ℕ, zero, suc, ◌≤◌, ◌<◌, ◌≡◌, refl, ◌≢◌, sym, ◌∙◌, ap, Bool, true, false, ◌||◌, List, [], ◌∷◌,
  ◌++◌, Text, length, take, drop, arith, append-nil,
}
use apalis_redis.Prelude.Assoc.{contains, add_all, contains-add, erase_all}
use apalis_redis.Redis.{Redis, range, put-ne}
use apalis_redis.Redis.Laws.{effects}
use apalis_redis.Script.{ScriptError, ok, writes, when}
use apalis_redis.Signal.{signal_if-ok, signal_if-list, signal_if-set, signal_if-zset}
use apalis_redis.Fetch.{batch_end, promote, mark_inflight}

take-drop_taken :
    {A : Type 0} (n : ℕ) (xs : List A) → take n xs ++ drop (length (take n xs)) xs ≡ xs
take-drop_taken zero xs = refl
take-drop_taken (suc n) [] = refl
take-drop_taken (suc n) (x ∷ xs) = ap (◌∷◌ x) (take-drop_taken n xs)

drop_all : {A : Type 0} (xs : List A) → drop (length xs) xs ≡ []
drop_all [] = refl
drop_all (x ∷ xs) = drop_all xs

-- A batch and what is left of the queue are the queue.
pub batch-drop :
    (b : ℕ) (q : List Text) → range (batch_end b) q ++ drop (length (range (batch_end b) q)) q ≡ q
unfolding range batch_end
batch-drop zero q = rw (drop_all q) (append-nil q)
batch-drop (suc n) q = take-drop_taken (suc n) q

take-le : {A : Type 0} (n : ℕ) (xs : List A) → length (take n xs) ≤ n
take-le zero xs = omega arith
take-le (suc n) [] = omega arith
take-le (suc n) (x ∷ xs) = omega (arith, take-le n xs)

pub batch-le : (b : ℕ) (q : List Text) → 0 < b → length (range (batch_end b) q) ≤ b
unfolding range batch_end
batch-le zero q h = absurd (omega arith)
batch-le (suc n) q h = take-le (suc n) q

pub contains-add_all :
    (j : Text) (ks s : List Text) → contains j (add_all ks s) ≡ (contains j ks || contains j s)
unfolding add_all contains
contains-add_all j [] s = refl
contains-add_all j (k ∷ ks) s = rw (contains-add_all j ks _, contains-add j k s) (ground arith)

module _ (R : Redis) (active inflight scheduled signal : Text) where
  open R use {Db, keyspace}

  pub promote-ok :
      (due : List Text) (d : Db)
      → promote R scheduled active signal due d
        ≡ (ok tt, (promote R scheduled active signal due d).1)
  unfolding promote
  promote-ok [] d = refl
  promote-ok (id ∷ ids) d = signal_if-ok R signal true _

  module _ (ne : signal ≢ active) where
    pub promote-list :
        (due : List Text) (d : Db)
        → (keyspace (promote R scheduled active signal due d).1).list active
          ≡ (keyspace d).list active ++ due
    unfolding promote
    promote-list [] d = sym (append-nil _)
    promote-list (id ∷ ids) d = signal_if-list R signal true active _ ne ∙ simp effects

  pub promote-set :
      (due : List Text) (d : Db)
      → signal ≢ inflight
      → (keyspace (promote R scheduled active signal due d).1).set inflight
        ≡ (keyspace d).set inflight
  unfolding promote
  promote-set [] d ne = refl
  promote-set (id ∷ ids) d ne = signal_if-set R signal true inflight _ ne ∙ simp effects

  pub promote-zset :
      (due : List Text) (d : Db)
      → signal ≢ scheduled
      → (keyspace (promote R scheduled active signal due d).1).zset scheduled
        ≡ erase_all due ((keyspace d).zset scheduled)
  unfolding promote erase_all
  promote-zset [] d ne = refl
  promote-zset (id ∷ ids) d ne = signal_if-zset R signal true scheduled _ ne ∙ simp effects

  pub promote-zset_other :
      (k : Text) (due : List Text) (d : Db)
      → signal ≢ k
      → scheduled ≢ k
      → (keyspace (promote R scheduled active signal due d).1).zset k ≡ (keyspace d).zset k
  unfolding promote
  promote-zset_other k [] d ne other = refl
  promote-zset_other k (id ∷ ids) d ne other =
      signal_if-zset R signal true k _ ne ∙ simp effects (put-ne _ scheduled _ k other)

  pub mark-ok :
      (ids : List Text) (d : Db)
      → mark_inflight R inflight active ids d ≡ (ok tt, (mark_inflight R inflight active ids d).1)
  unfolding mark_inflight
  mark-ok [] d = refl
  mark-ok (id ∷ ids) d = refl

  pub mark-list :
      (ids : List Text) (d : Db)
      → (keyspace (mark_inflight R inflight active ids d).1).list active
        ≡ drop (length ids) ((keyspace d).list active)
  unfolding mark_inflight
  mark-list [] d = refl
  mark-list (id ∷ ids) d = simp effects

  pub mark-set :
      (ids : List Text) (d : Db)
      → (keyspace (mark_inflight R inflight active ids d).1).set inflight
        ≡ add_all ids ((keyspace d).set inflight)
  unfolding mark_inflight add_all
  mark-set [] d = refl
  mark-set (id ∷ ids) d = simp effects

  pub mark-zset :
      (ids : List Text) (d : Db)
      → (keyspace (mark_inflight R inflight active ids d).1).zset ≡ (keyspace d).zset
  unfolding mark_inflight
  mark-zset [] d = refl
  mark-zset (id ∷ ids) d = simp effects

module _ (R : Redis) where
  open R use {Db, keyspace}

  -- The end of the script: the signal is cleared when the batch is not full.
  abbrev pub cleared : Bool → Text → Db → Db
  cleared short signal d = (when {E = ScriptError} short (writes (R.del signal)) d).1

  pub cleared-ok :
      (short : Bool) (signal : Text) (d : Db)
      → when {E = ScriptError} short (writes (R.del signal)) d ≡ (ok tt, cleared short signal d)
  cleared-ok true signal d = refl
  cleared-ok false signal d = refl

  pub cleared-list :
      (short : Bool) (signal k : Text) (d : Db)
      → signal ≢ k
      → (keyspace (cleared short signal d)).list k ≡ (keyspace d).list k
  cleared-list true signal k d ne = simp effects (put-ne _ signal _ k ne)
  cleared-list false signal k d ne = refl

  pub cleared-set :
      (short : Bool) (signal k : Text) (d : Db)
      → signal ≢ k
      → (keyspace (cleared short signal d)).set k ≡ (keyspace d).set k
  cleared-set true signal k d ne = simp effects (put-ne _ signal _ k ne)
  cleared-set false signal k d ne = refl

  pub cleared-zset :
      (short : Bool) (signal k : Text) (d : Db)
      → signal ≢ k
      → (keyspace (cleared short signal d)).zset k ≡ (keyspace d).zset k
  cleared-zset true signal k d ne = simp effects (put-ne _ signal _ k ne)
  cleared-zset false signal k d ne = refl
