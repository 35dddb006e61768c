-- ===== src/State/Players/Sweep.antt =====
-- `SweepEvict`: what one sweep evicts, and what it leaves alone.
use mathlib.Core.Option
use open_zone.Base.{
  ℕ, ◌+◌, ◌≡◌, refl, ◌≢◌, ◌∙◌, Bool, true, false, ◌||◌, Option, none, some, List, [], ◌∷◌, ◌++◌,
  arith, eqb, eqb_iff, if◌then◌else◌, Bool-cases, inl, inr, length, length-append, member, nat_eq,
}
use open_zone.Base.Dict.{Dict, get, put, get-put, UniqueKeys, UniqueKeys-put}
use open_zone.State.Time.{Time, Duration, not_positive}
use open_zone.State.Players.{
  Player, PlayerStore, is_active, or_now, is_due, sweep_loop, sweep_evict, count, count_active,
}
use open_zone.State.Players.Entries.{count_active-put}

-- What a sweep makes of one player.
abbrev pub sweep_one : Time → Duration → Player → Player
sweep_one now max_age p = if is_due now max_age p then record p { evicted_at = now } else p

abbrev pub is_due? : Time → Duration → Option Player → Bool
is_due? now max_age none = false
is_due? now max_age (some p) = is_due now max_age p

module _ (now : Time) (max_age : Duration) where
  -- The value of a key after the loop: the sweep of the visited entry, or the old value.
  abbrev after : Option Player → Option Player → Option Player
  after none old = old
  after (some p) old = if is_due now max_age p then some (record p { evicted_at = now }) else old

  abbrev write : ℕ → Player → Dict ℕ Player → Dict ℕ Player
  write d p m = if is_due now max_age p then put m d (record p { evicted_at = now }) else m

  abbrev note : ℕ → Player → List ℕ → List ℕ
  note d p found = if is_due now max_age p then found ++ (d ∷ []) else found

  get-sweep_loop :
      (es m : Dict ℕ Player) (found : List ℕ) (k : ℕ)
      → UniqueKeys es
      → get (sweep_loop now max_age es m found).0 k ≡ after (get es k) (get m k)
  unfolding sweep_loop get
  get-sweep_loop [] m found k u = refl
  get-sweep_loop ((d, p) ∷ es) m found k u = ground (
    arith,
    get-sweep_loop es (write d p m) (note d p found) k u.1,
    eqb_iff d k,
    get-put m d k (record p { evicted_at = now }),
  )

  member-append : (k : ℕ) (xs : List ℕ) (d : ℕ) → member k (xs ++ d ∷ []) ≡ member k xs || eqb d k
  member-append k [] d = ground arith
  member-append k (x ∷ xs) d = ground (arith, member-append k xs d)

  member-sweep_loop :
      (es m : Dict ℕ Player) (found : List ℕ) (k : ℕ)
      → UniqueKeys es
      → member k (sweep_loop now max_age es m found).1
        ≡ member k found || is_due? now max_age (get es k)
  unfolding sweep_loop get
  member-sweep_loop [] m found k u = ground arith
  member-sweep_loop ((d, p) ∷ es) m found k u = ground (
    arith,
    member-sweep_loop es (write d p m) (note d p found) k u.1,
    eqb_iff d k,
    member-append k found d,
  )

  due-IsActive : (p : Player) → is_due now max_age p ≡ true → is_active p ≡ true
  unfolding is_due
  due-IsActive p h = ground arith

  count-sweep_loop :
      (es m : Dict ℕ Player) (found : List ℕ)
      → UniqueKeys es
      → now ≢ 0
      → ((k : ℕ) (p : Player) → get es k ≡ some p → get m k ≡ some p)
      → count_active (sweep_loop now max_age es m found).0
          + length (sweep_loop now max_age es m found).1
        ≡ count_active m + length found
  unfolding sweep_loop get
  count-sweep_loop [] m found u nz same = refl
  count-sweep_loop ((d, p) ∷ es) m found u nz same =
      count-sweep_loop es (write d p m) (note d p found) u.1 nz (λ k q h.
        ground (arith, same k q, eqb_iff d k, u.0, get-put m d k (record p { evicted_at = now })))
      ∙ ground (
        arith,
        count_active-put m d (record p { evicted_at = now }),
        due-IsActive p,
        same d p,
        eqb_iff d d,
        length-append found (d ∷ []),
      )

-- In a store with one entry for each DPNID, a sweep with a positive age limit marks exactly the
-- entries that are due, with the sweep's time, leaves every other entry as it was, and reports
-- exactly the DPNIDs that it marked.
pub sweep_evict-exact :
    (wall now : Time) (max_age : Duration) (s : PlayerStore) (k : ℕ)
    → UniqueKeys s.players
    → not_positive max_age ≡ false
    → (get (sweep_evict wall now max_age s).0.players k
        ≡ Option.map (sweep_one (or_now wall now) max_age) (get s.players k))
      × (member k (sweep_evict wall now max_age s).1
          ≡ is_due? (or_now wall now) max_age (get s.players k))
unfolding sweep_evict
sweep_evict-exact wall now max_age s k u h = rw h (
  get-sweep_loop (or_now wall now) max_age s.players s.players [] k u ∙ by_cases (get s.players k),
  member-sweep_loop (or_now wall now) max_age s.players s.players [] k u,
)
  where
    by_cases :
        (o : Option Player)
        → after (or_now wall now) max_age o o ≡ Option.map (sweep_one (or_now wall now) max_age) o
    by_cases none = refl
    by_cases (some p) = ground arith

-- In a store with one entry for each DPNID, a sweep at a time that is not zero moves players from
-- the active count to its report, one for one.
count-sweep_evict :
    (wall now : Time) (max_age : Duration) (s : PlayerStore)
    → UniqueKeys s.players
    → or_now wall now ≢ 0
    → count (sweep_evict wall now max_age s).0 + length (sweep_evict wall now max_age s).1 ≡ count s
unfolding sweep_evict count
count-sweep_evict wall now max_age s u nz =
    ground
      (arith, count-sweep_loop (or_now wall now) max_age s.players s.players [] u nz (λ k p h. h))

sweep_one-settled :
    (now : Time) (max_age : Duration) (o : Option Player)
    → now ≢ 0
    → is_due? now max_age (Option.map (sweep_one now max_age) o) ≡ false
unfolding is_due
sweep_one-settled now max_age none nz = refl
sweep_one-settled now max_age (some p) nz = ground arith

members_nil : (xs : List ℕ) → ((k : ℕ) → member k xs ≡ false) → xs ≡ []
members_nil [] h = refl
members_nil (x ∷ xs) h = ground (arith, h x, eqb_iff x x)

-- After a sweep no active player is left that the sweep's time and limit would evict.
pub sweep_evict-none_due :
    (wall now : Time) (max_age : Duration) (s : PlayerStore) (k : ℕ)
    → UniqueKeys s.players
    → not_positive max_age ≡ false
    → or_now wall now ≢ 0
    → is_due? (or_now wall now) max_age (get (sweep_evict wall now max_age s).0.players k) ≡ false
sweep_evict-none_due wall now max_age s k u h nz =
    rw ((sweep_evict-exact wall now max_age s k u h).0)
      (sweep_one-settled (or_now wall now) max_age (get s.players k) nz)

UniqueKeys-sweep_loop :
    (now : Time) (max_age : Duration) (es m : Dict ℕ Player) (found : List ℕ)
    → UniqueKeys m
    → UniqueKeys (sweep_loop now max_age es m found).0
unfolding sweep_loop
UniqueKeys-sweep_loop now max_age [] m found u = u
UniqueKeys-sweep_loop now max_age ((d, p) ∷ es) m found u =
    UniqueKeys-sweep_loop now max_age es (write now max_age d p m) (note now max_age d p found)
      (elim (Bool-cases (is_due now max_age p)) [
        | inl due ↦ rw due (UniqueKeys-put m d (record p { evicted_at = now }) u)
        | inr kept ↦ rw kept u
      ])

pub sweep_evict-UniqueKeys :
    (wall now : Time) (max_age : Duration) (s : PlayerStore)
    → UniqueKeys s.players
    → UniqueKeys (sweep_evict wall now max_age s).0.players
unfolding sweep_evict
sweep_evict-UniqueKeys wall now max_age s u = elim (Bool-cases (not_positive max_age)) [
  | inl off ↦ rw off u
  | inr on ↦ rw on (UniqueKeys-sweep_loop (or_now wall now) max_age s.players s.players [] u)
]

-- In a store with one entry for each DPNID, after a sweep with a positive limit at a time that is
-- not zero, a second sweep at the same time with the same limit evicts nobody.
pub sweep_evict_again :
    (wall now : Time) (max_age : Duration) (s : PlayerStore)
    → UniqueKeys s.players
    → not_positive max_age ≡ false
    → or_now wall now ≢ 0
    → (sweep_evict wall now max_age (sweep_evict wall now max_age s).0).1 ≡ []
sweep_evict_again wall now max_age s u h nz = members_nil _ (λ k.
    (sweep_evict-exact wall now max_age (sweep_evict wall now max_age s).0 k
      (sweep_evict-UniqueKeys wall now max_age s u) h).1
    ∙ sweep_evict-none_due wall now max_age s k u h nz)

pub sweep_evict_off :
    (wall now : Time) (max_age : Duration) (s : PlayerStore)
    → not_positive max_age ≡ true
    → (sweep_evict wall now max_age s).0 ≡ s
unfolding sweep_evict
sweep_evict_off wall now max_age s h = rw h
