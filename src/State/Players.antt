-- ===== src/State/Players.antt =====
-- internal/state/player_store.go: the DirectPlay sessions that are online.
-- Each method takes the mutex for its whole body, so a method is one step on the store. `wall` is
-- what `time.Now().UTC()` would return, read only if the caller's time is zero.
mod Entries
pub mod Sweep
pub mod Lifetime
pub mod Overdue
use open_zone.Base.{
  ℕ, ◌+◌, Bool, true, false, not, Option, none, some, List, [], ◌∷◌, ◌++◌, if◌then◌else◌, nat_eq,
}
use open_zone.Base.Dict.{Dict, get, put, del}
use open_zone.State.Time.{Time, Duration, is_zero, sub, not_positive, at_least}

pub record Player : Type 0 where
  pub dpnid : ℕ
  pub connected_at : Time
  pub evicted_at : Time

pub record PlayerStore : Type 0 where
  pub players : Dict ℕ Player

unfoldable pub new_player_store : PlayerStore
new_player_store = record { players = [] }

abbrev pub is_active : Player → Bool
is_active p = is_zero p.evicted_at

-- if now.IsZero() { now = time.Now().UTC() }
abbrev pub or_now : Time → Time → Time
or_now wall now = if is_zero now then wall else now

abbrev pub blocks_upsert : Option Player → Bool
blocks_upsert none = false
blocks_upsert (some p) = not (is_active p)

unfoldable pub upsert : Time → ℕ → Time → PlayerStore → PlayerStore
upsert wall dpnid now s = if blocks_upsert (get s.players dpnid) then s else record s {
  players =
      put s.players dpnid
        (record { dpnid = dpnid; connected_at = or_now wall now; evicted_at = 0 });
}

abbrev pub is_some {ℓ} : {A : Type ℓ} → Option A → Bool
is_some none = false
is_some (some a) = true

unfoldable pub remove : ℕ → PlayerStore → PlayerStore × Bool
remove dpnid s = (record s { players = del s.players dpnid }, is_some (get s.players dpnid))

pub count_active : Dict ℕ Player → ℕ
count_active [] = 0
count_active ((d, p) ∷ m) = (if is_active p then 1 else 0) + count_active m

unfoldable pub count : PlayerStore → ℕ
unfolding count_active
count s = count_active s.players

abbrev pub evicted : Option Player → Bool
evicted none = false
evicted (some p) = not (is_active p)

unfoldable pub is_evicted : PlayerStore → ℕ → Bool
is_evicted s dpnid = evicted (get s.players dpnid)

touch_found : Time → ℕ → Option Player → PlayerStore → PlayerStore × Bool
touch_found now dpnid none s = (s, false)
touch_found now dpnid (some p) s =
    if not (is_active p)
    then (s, false)
    else (record s { players = put s.players dpnid (record p { evicted_at = now }) }, true)

unfoldable pub touch_evict : Time → ℕ → Time → PlayerStore → PlayerStore × Bool
unfolding touch_found
touch_evict wall dpnid now s = touch_found (or_now wall now) dpnid (get s.players dpnid) s

-- What the body of the sweep's loop tests: active, and of unknown age or too old.
unfoldable pub is_due : Time → Duration → Player → Bool
is_due now max_age p =
    if not (is_active p)
    then false
    else if is_zero p.connected_at
    then true
    else at_least (sub now p.connected_at) max_age

-- The loop over `s.players`, which writes the entries that it visits; `found` collects the DPNIDs.
pub sweep_loop : Time → Duration → Dict ℕ Player → Dict ℕ Player → List ℕ → Dict ℕ Player × List ℕ
sweep_loop now max_age [] m found = (m, found)
sweep_loop now max_age ((d, p) ∷ rest) m found =
    let due = is_due now max_age p in
    sweep_loop now max_age rest (if due then put m d (record p { evicted_at = now }) else m)
      (if due then found ++ (d ∷ []) else found)

unfoldable pub sweep_evict : Time → Time → Duration → PlayerStore → PlayerStore × List ℕ
unfolding sweep_loop
sweep_evict wall now max_age s =
    let (m, found) = sweep_loop (or_now wall now) max_age s.players s.players [] in
    if not_positive max_age then (s, []) else (record s { players = m }, found)
