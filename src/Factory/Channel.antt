-- ===== src/Factory/Channel.antt =====
-- What `parse_channel_info` makes of the channels that the scripts publish on.
use apalis_redis.Prelude.{
  ℕ, arith, ◌≡◌, refl, ◌∙◌, ap, subst, inl, inr, Bool, true, false, ◌||◌, Option, none, some, List,
  [], ◌∷◌, ◌++◌, Text, bytes, ◌==◌, if◌then◌else◌, Bool-cases, All, append_assoc,
}
use apalis_redis.Config.{Config, active_jobs_list}
use apalis_redis.Lease.{channel}
use apalis_redis.Reply.{Value, bulk_string, is_utf8}
use apalis_redis.Reply.Utf8.{valid_from, lead}
use apalis_redis.Factory.{cons_first, split, middle_parts, parse_channel_info}

unfoldable pub has : ℕ → Text → Bool
has sep [] = false
has sep (b ∷ s) = b == sep || has sep s

-- The first part ends at the first separator.
split-append :
    (sep : ℕ) (q s : Text) → has sep q ≡ false → split sep (q ++ sep ∷ s) ≡ q ∷ split sep s
unfolding split has
split-append sep [] s h = ground arith
split-append sep (b ∷ q) s h =
    let ih : split sep (q ++ sep ∷ s) ≡ q ∷ split sep s = split-append sep q s (ground arith) in
    let e : (b == sep) ≡ false = ground arith in rw (e, ih) refl

cons_first-All :
    (sep b : ℕ) (ps : List Text)
    → (b == sep) ≡ false
    → All (λ p. has sep p ≡ false) ps
    → All (λ p. has sep p ≡ false) (cons_first b ps)
unfolding has
cons_first-All sep b [] e h = (rw e refl, tt)
cons_first-All sep b (p ∷ ps) e h = (rw (e, h.0) refl, h.1)

-- No part holds the separator.
split-All : (sep : ℕ) (s : Text) → All (λ p. has sep p ≡ false) (split sep s)
unfolding split has
split-All sep [] = (refl, tt)
split-All sep (b ∷ s) = elim (Bool-cases (b == sep)) [
  | inl e ↦ rw e (refl, split-All sep s)
  | inr e ↦ rw e (cons_first-All sep b (split sep s) e (split-All sep s))
]

lead-append :
    (o : Option (List (ℕ × ℕ))) (s t : Text)
    → ((p : List (ℕ × ℕ)) → valid_from p s ≡ true → valid_from p (s ++ t) ≡ true)
    → (elim o as (λ _. Bool) [ none ↦ false | some p ↦ valid_from p s ]) ≡ true
    → (elim o as (λ _. Bool) [ none ↦ false | some p ↦ valid_from p (s ++ t) ]) ≡ true
lead-append none s t ih h = cc
lead-append (some p) s t ih h = ih p h

-- Text that follows text is UTF-8 if both are.
valid_from-append :
    (p : List (ℕ × ℕ)) (s t : Text)
    → valid_from p s ≡ true
    → valid_from [] t ≡ true
    → valid_from p (s ++ t) ≡ true
unfolding valid_from
valid_from-append [] [] t h k = k
valid_from-append (r ∷ p) [] t h k = cc
valid_from-append ((lo, hi) ∷ p) (b ∷ s) t h k =
    ground (arith, valid_from-append p s t (ground arith) k)
valid_from-append [] (b ∷ s) t h k = lead-append (lead b) s t (λ p g. valid_from-append p s t g k) h

is_utf8-announced :
    (q : Text)
    → is_utf8 q ≡ true
    → is_utf8 (bytes "tasks:" ++ (q ++ bytes ":active:available")) ≡ true
unfolding is_utf8
is_utf8-announced q h =
    valid_from-append [] (bytes "tasks:") (q ++ bytes ":active:available") refl
      (valid_from-append [] q (bytes ":active:available") h refl)

-- The channel on which the waiting tasks of a queue are announced, as the arguments of the message.
abbrev pub announcement : Config → Value → Text → List Value
announcement c kind payload =
    kind
    ∷ bulk_string (channel (active_jobs_list c) (bytes ":available"))
    ∷ bulk_string payload
    ∷ []

-- A queue's name without a colon is read back from its channel.
pub parse_channel_info-announcement :
    (c : Config) (kind : Value) (payload : Text)
    → is_utf8 c.queue ≡ true
    → has b':' c.queue ≡ false
    → parse_channel_info (announcement c kind payload)
      ≡ some (c.queue, bytes "active", bytes "available")
unfolding parse_channel_info active_jobs_list middle_parts split has
parse_channel_info-announcement c kind payload h k =
    let name : channel (active_jobs_list c) (bytes ":available")
        ≡ bytes "tasks:" ++ (c.queue ++ bytes ":active:available") =
      ap (λ s. bytes "tasks:" ++ s) (append_assoc c.queue (bytes ":active") (bytes ":available")) in
    let parts : Option (Text × Text × Text) =
      middle_parts (split b':' (bytes "tasks:" ++ (c.queue ++ bytes ":active:available"))) in
    ap (λ s. if is_utf8 s then middle_parts (split b':' s) else none) name
    ∙ ap (λ b. if b then parts else none) (is_utf8-announced c.queue h)
    ∙ ap middle_parts (
        split-append b':' (bytes "tasks") (c.queue ++ bytes ":active:available") refl
        ∙ ap (λ ps. bytes "tasks" ∷ ps) (split-append b':' c.queue (bytes "active:available") k))

middle-clean :
    (ps : List Text) (ns act sig : Text)
    → All (λ p. has b':' p ≡ false) ps
    → middle_parts ps ≡ some (ns, act, sig)
    → has b':' ns ≡ false
unfolding middle_parts
middle-clean (a ∷ b ∷ c ∷ d ∷ ps) ns act sig h e = subst (λ x. has b':' x ≡ false) (cc) h.1.0
middle-clean _ ns act sig h e = cc

clean_from :
    (b : Bool) (ch ns act sig : Text)
    → (if b then middle_parts (split b':' ch) else none) ≡ some (ns, act, sig)
    → has b':' ns ≡ false
clean_from true ch ns act sig e = middle-clean (split b':' ch) ns act sig (split-All b':' ch) e
clean_from false ch ns act sig e = cc

-- No namespace that is parsed holds a colon.
pub parse_channel_info-clean :
    (msg : List Value) (ns act sig : Text)
    → parse_channel_info msg ≡ some (ns, act, sig)
    → has b':' ns ≡ false
unfolding parse_channel_info
parse_channel_info-clean (kind ∷ bulk_string ch ∷ rest) ns act sig e =
    clean_from (is_utf8 ch) ch ns act sig e
parse_channel_info-clean _ ns act sig e = cc
