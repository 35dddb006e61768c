-- ===== src/State/Players/Lifetime.antt =====
-- The life of a session through any sequence of the store's methods.
use mathlib.Core.Option
use open_zone.Base.{
  ℕ, ◌+◌, ◌≡◌, ◌≢◌, true, false, Option, none, some, List, [], ◌∷◌, arith, eqb_iff, Bool-cases,
  Option-cases, inl, inr, ◌⊎◌, All, nat_eq,
}
use open_zone.Base.Dict.{
  get, get-put, get-put_self, get-del, UniqueKeys, UniqueKeys-put, UniqueKeys-del,
}
use open_zone.State.Time.{Time, Duration, not_positive}
use open_zone.State.Players.{
  Player, PlayerStore, is_active, blocks_upsert, upsert, remove, touch_evict, touch_found,
  sweep_evict, is_evicted, evicted, is_due, or_now, count,
}
use open_zone.State.Players.Entries.{count_active-put}
use open_zone.State.Players.Sweep.{
  sweep_evict-exact, sweep_evict-UniqueKeys, sweep_evict_off, sweep_one,
}

-- One call of a method that writes, with its arguments and what the wall clock read.
pub data Call : Type 0 where
  upsert_call : Time → ℕ → Time → Call
  remove_call : ℕ → Call
  touch_call : Time → ℕ → Time → Call
  sweep_call : Time → Time → Duration → Call

unfoldable pub perform : Call → PlayerStore → PlayerStore
perform (upsert_call wall d now) s = upsert wall d now s
perform (remove_call d) s = (remove d s).0
perform (touch_call wall d now) s = (touch_evict wall d now s).0
perform (sweep_call wall now max_age) s = (sweep_evict wall now max_age s).0

unfoldable pub run : List Call → PlayerStore → PlayerStore
run [] s = s
run (c ∷ cs) s = run cs (perform c s)

pub perform-UniqueKeys :
    (c : Call) (s : PlayerStore) → UniqueKeys s.players → UniqueKeys (perform c s).players
unfolding perform upsert remove touch_evict
perform-UniqueKeys (upsert_call wall d now) s u =
    elim (Bool-cases (blocks_upsert (get s.players d))) [
      | inl b ↦ rw b u
      | inr b ↦ rw b (UniqueKeys-put s.players d _ u)
    ]
perform-UniqueKeys (remove_call d) s u = UniqueKeys-del s.players d u
perform-UniqueKeys (touch_call wall d now) s u = by_cases (get s.players d)
  where
    by_cases : (o : Option Player) → UniqueKeys (touch_found (or_now wall now) d o s).0.players
    by_cases none = u
    by_cases (some p) = elim (Bool-cases (is_active p)) [
      | inl b ↦ rw b (UniqueKeys-put s.players d _ u)
      | inr b ↦ rw b u
    ]
perform-UniqueKeys (sweep_call wall now max_age) s u = sweep_evict-UniqueKeys wall now max_age s u

-- The call is not `Remove(d)`.
abbrev pub Spares : ℕ → Call → Type 0
Spares d (remove_call e) = e ≢ d
Spares d (upsert_call wall e now) = Unit
Spares d (touch_call wall e now) = Unit
Spares d (sweep_call wall now max_age) = Unit

upsert-evicted :
    (wall : Time) (e : ℕ) (now : Time) (d : ℕ) (s : PlayerStore)
    → is_evicted s d ≡ true
    → is_evicted (upsert wall e now s) d ≡ true
unfolding is_evicted upsert
upsert-evicted wall e now d s h = ground (
  arith,
  eqb_iff e d,
  get-put s.players e d (record { dpnid = e; connected_at = or_now wall now; evicted_at = 0 }),
)

touch-evicted :
    (wall : Time) (e : ℕ) (now : Time) (d : ℕ) (s : PlayerStore)
    → is_evicted s d ≡ true
    → is_evicted (touch_evict wall e now s).0 d ≡ true
unfolding is_evicted touch_evict
touch-evicted wall e now d s h = elim (Option-cases (get s.players e)) [
  | inl missing ↦ rw (missing, touch_found) h
  | inr (p, found) ↦
      ground (
        arith,
        found,
        eqb_iff e d,
        get-put s.players e d (record p { evicted_at = or_now wall now }),
      )
]

sweep_one-evicted :
    (now : Time) (max_age : Duration) (o : Option Player)
    → evicted o ≡ true
    → evicted (Option.map (sweep_one now max_age) o) ≡ true
unfolding is_due
sweep_one-evicted now max_age none h = h
sweep_one-evicted now max_age (some p) h = ground arith

sweep-evicted :
    (wall now : Time) (max_age : Duration) (d : ℕ) (s : PlayerStore)
    → UniqueKeys s.players
    → is_evicted s d ≡ true
    → is_evicted (sweep_evict wall now max_age s).0 d ≡ true
unfolding is_evicted
sweep-evicted wall now max_age d s u h = elim (Bool-cases (not_positive max_age)) [
  | inl off ↦ rw (sweep_evict_off wall now max_age s off) h
  | inr on ↦
      rw ((sweep_evict-exact wall now max_age s d u on).0)
        (sweep_one-evicted (or_now wall now) max_age (get s.players d) h)
]

pub perform-evicted :
    (c : Call) (d : ℕ) (s : PlayerStore)
    → UniqueKeys s.players
    → Spares d c
    → is_evicted s d ≡ true
    → is_evicted (perform c s) d ≡ true
unfolding perform
perform-evicted (upsert_call wall e now) d s u k h = upsert-evicted wall e now d s h
perform-evicted (remove_call e) d s u k h =
    unfold is_evicted remove in ground (arith, get-del s.players e d, eqb_iff e d)
perform-evicted (touch_call wall e now) d s u k h = touch-evicted wall e now d s h
perform-evicted (sweep_call wall now max_age) d s u k h = sweep-evicted wall now max_age d s u h

-- In a store with one entry for each DPNID, an evicted session stays evicted through any calls on
-- the store, reconnects with the same DPNID and later sweeps included, as long as `Remove` is not
-- called for its DPNID.
pub run-evicted :
    (cs : List Call) (d : ℕ) (s : PlayerStore)
    → UniqueKeys s.players
    → All (Spares d) cs
    → is_evicted s d ≡ true
    → is_evicted (run cs s) d ≡ true
unfolding run
run-evicted [] d s u k h = h
run-evicted (c ∷ cs) d s u k h =
    run-evicted cs d (perform c s) (perform-UniqueKeys c s u) k.1 (perform-evicted c d s u k.0 h)

-- At a time that is not zero, `TouchEvict` answers true exactly for an active player, who is then
-- evicted and no longer counted; in every other case the store is unchanged.
touch_evict-exact :
    (wall : Time) (d : ℕ) (now : Time) (s : PlayerStore)
    → or_now wall now ≢ 0
    → (((touch_evict wall d now s).1 ≡ true)
        × (is_evicted (touch_evict wall d now s).0 d ≡ true)
        × (count (touch_evict wall d now s).0 + 1 ≡ count s))
      ⊎ (((touch_evict wall d now s).1 ≡ false)
          × ((touch_evict wall d now s).0 ≡ s)
          × ((get s.players d ≡ none) ⊎ (is_evicted s d ≡ true)))
unfolding touch_evict is_evicted count
touch_evict-exact wall d now s nz = elim (Option-cases (get s.players d)) [
  | inl missing ↦ ground (arith, missing)
  | inr (p, found) ↦ ground (
    arith,
    found,
    get-put_self s.players d (record p { evicted_at = or_now wall now }),
    count_active-put s.players d (record p { evicted_at = or_now wall now }),
  )
]
