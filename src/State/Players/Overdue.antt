-- ===== src/State/Players/Overdue.antt =====
-- When a player is due in a sweep, in terms of the times alone (internal/state/player_store.go).
use mathlib.Core.Option
use open_zone.Base.{
  ℕ, ◌+◌, ◌≤◌, ◌≡◌, refl, ◌∙◌, Bool, false, ◌&&◌, ◌||◌, Option, none, some, arith, eqb, leb, member,
  nat_eq, if◌then◌else◌,
}
use open_zone.Base.Dict.{get, UniqueKeys}
use open_zone.State.Time.{Time, pos, max_duration, sub, at_least}
use open_zone.State.Players.{Player, PlayerStore, or_now, is_due, sweep_evict}
use open_zone.State.Players.Sweep.{sweep_one, is_due?, sweep_evict-exact}

-- Active, and either of unknown age or connected for the limit at least.
abbrev pub is_overdue : Time → ℕ → Player → Bool
is_overdue now limit p =
    eqb p.evicted_at 0 && (eqb p.connected_at 0 || leb (p.connected_at + limit) now)

-- The saturation of `Sub` does not matter below the largest duration.
at_least-sub : (t u a : ℕ) → a ≤ max_duration → 1 ≤ a → at_least (sub t u) (pos a) ≡ leb (u + a) t
at_least-sub t u a bound some_limit = ground arith

is_due-is_overdue :
    (now : Time) (limit : ℕ) (p : Player)
    → 1 ≤ limit
    → limit ≤ max_duration
    → is_due now (pos limit) p ≡ is_overdue now limit p
unfolding is_due
is_due-is_overdue now limit p some_limit bound =
    ground (arith, at_least-sub now p.connected_at limit bound some_limit)

-- A player after a sweep at a time.
abbrev pub marked : Time → ℕ → Player → Player
marked now limit p = if is_overdue now limit p then record p { evicted_at = now } else p

abbrev pub overdue : Time → ℕ → Option Player → Bool
overdue now limit none = false
overdue now limit (some p) = is_overdue now limit p

-- In a store with one entry for each DPNID, a sweep with a positive limit marks with the sweep's time
-- exactly the active players who have been connected for the limit at least, or since an unknown time,
-- leaves every other entry as it was, and reports exactly the DPNIDs that it marked.
pub sweep_evict-overdue :
    (wall now : Time) (limit : ℕ) (s : PlayerStore) (k : ℕ)
    → UniqueKeys s.players
    → 1 ≤ limit
    → limit ≤ max_duration
    → (get (sweep_evict wall now (pos limit) s).0.players k
        ≡ Option.map (marked (or_now wall now) limit) (get s.players k))
      × (member k (sweep_evict wall now (pos limit) s).1
          ≡ overdue (or_now wall now) limit (get s.players k))
sweep_evict-overdue wall now limit s k u some_limit bound =
    let (entry, reported) = sweep_evict-exact wall now (pos limit) s k u (ground arith) in
    (entry ∙ same_entry (get s.players k), reported ∙ same_report (get s.players k))
  where
    same_entry :
        (o : Option Player)
        → Option.map (sweep_one (or_now wall now) (pos limit)) o
          ≡ Option.map (marked (or_now wall now) limit) o
    same_entry none = refl
    same_entry (some p) = rw (is_due-is_overdue (or_now wall now) limit p some_limit bound) refl

    same_report :
        (o : Option Player)
        → is_due? (or_now wall now) (pos limit) o ≡ overdue (or_now wall now) limit o
    same_report none = refl
    same_report (some p) = is_due-is_overdue (or_now wall now) limit p some_limit bound
