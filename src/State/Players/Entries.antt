-- ===== src/State/Players/Entries.antt =====
-- How one write changes the number of active players of the map.
use open_zone.Base.{ℕ, ◌+◌, ◌≡◌, Option, none, some, [], ◌∷◌, arith, eqb_iff, if◌then◌else◌, nat_eq}
use open_zone.Base.Dict.{Dict, get, put, del, UniqueKeys}
use open_zone.State.Players.{Player, is_active, count_active}

-- The share of one key in the count.
abbrev pub weight : Option Player → ℕ
weight none = 0
weight (some p) = if is_active p then 1 else 0

pub count_active-put :
    (m : Dict ℕ Player) (d : ℕ) (p : Player)
    → count_active (put m d p) + weight (get m d) ≡ count_active m + weight (some p)
unfolding count_active put get
count_active-put [] d p = ground arith
count_active-put ((j, q) ∷ m) d p = ground (arith, count_active-put m d p)

pub count_active-del :
    (m : Dict ℕ Player) (d : ℕ)
    → UniqueKeys m
    → count_active (del m d) + weight (get m d) ≡ count_active m
unfolding count_active del get
count_active-del [] d u = ground arith
count_active-del ((j, q) ∷ m) d u = ground (arith, eqb_iff j d, count_active-del m d u.1)
