-- ===== src/WaitFor/Counting.antt =====
-- What removing the delivered ids does to the pending ones.
use apalis_redis.Prelude.{arith, ◌≡◌, refl, true, List, [], ◌∷◌, Text, if◌then◌else◌}
use apalis_redis.Prelude.Assoc.{contains, remove, contains-remove}
use apalis_redis.Prelude.Counting.{count, count-remove}
use apalis_redis.WaitFor.{remove_all}

pub count-remove_all :
    (j : Text) (ids s : List Text)
    → count j (remove_all ids s) ≡ (if contains j ids then 0 else count j s)
unfolding remove_all contains
count-remove_all j [] s = refl
count-remove_all j (k ∷ ids) s =
    ground (arith, count-remove_all j ids (remove k s), count-remove j k s)

pub contains-remove_all :
    (j : Text) (ids s : List Text) → contains j (remove_all ids s) ≡ true → contains j s ≡ true
unfolding remove_all
contains-remove_all j [] s h = h
contains-remove_all j (k ∷ ids) s h =
    let g = contains-remove_all j ids (remove k s) h in ground (arith, contains-remove j k s, g)
