-- ===== src/Examples/Listings.antt =====
-- Listings of workers.
use apalis_redis.Prelude.{◌++◌, Option, List, Text, some, [], ◌∷◌}
use apalis_redis.Listing.AllWorkers.{Decoded, Entry}
use apalis_redis.Listing.Workers.{Row}

-- No metadata is JSON.
abbrev no_json : Text → Decoded Text
no_json s = Decoded.failed

-- The ids, one after the other, and a reader that takes every text.
abbrev ids_text : List (Entry Text) → Text
ids_text [] = []
ids_text (e ∷ es) = e.id ++ ids_text es

abbrev one_text : Text → Option (List Text)
one_text s = some (s ∷ [])

abbrev names_text : List Row → Text
names_text [] = []
names_text (r ∷ rows) = r.id ++ names_text rows
