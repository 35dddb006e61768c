-- ===== src/Tests/Players.antt =====
-- Runs of the player store (internal/state/player_store.go).
use mathlib.Core.Option
use open_zone.Base.{◌≡◌, refl, true, [], ◌∷◌, arith, member, nat_eq, List}
use open_zone.Base.Dict.{get, put, UniqueKeys}
use open_zone.State.Time.{pos}
use open_zone.State.Players.{PlayerStore, new_player_store, upsert, sweep_evict, is_due, is_evicted}
use open_zone.State.Players.Overdue.{marked, overdue, sweep_evict-overdue}
use open_zone.State.Players.Lifetime.{Call, upsert_call, touch_call, sweep_call, run, run-evicted}

-- Player 7 joined at 100, player 8 at 900.
abbrev two_players : PlayerStore
two_players = record {
  players =
      (7, record { dpnid = 7; connected_at = 100; evicted_at = 0 })
      ∷ (8, record { dpnid = 8; connected_at = 900; evicted_at = 0 })
      ∷ [];
}

upserts : upsert 1 8 900 (upsert 1 7 100 new_player_store) ≡ two_players
unfolding upsert new_player_store put get
upserts = refl

two_players-UniqueKeys : UniqueKeys two_players.players
unfolding get
two_players-UniqueKeys = (refl, (refl, tt))

sweeps : (sweep_evict 1 1000 (pos 500) two_players).1 ≡ 7 ∷ []
unfolding sweep_evict is_due put
sweeps = refl

sweep_evict-overdue_example :
    (get (sweep_evict 1 1000 (pos 500) two_players).0.players 7
      ≡ Option.map (marked 1000 500) (get two_players.players 7))
    × (member 7 (sweep_evict 1 1000 (pos 500) two_players).1
        ≡ overdue 1000 500 (get two_players.players 7))
sweep_evict-overdue_example =
    sweep_evict-overdue 1 1000 500 two_players 7 two_players-UniqueKeys (omega arith) (omega arith)

abbrev some_calls : List Call
some_calls = upsert_call 1 7 2000 ∷ touch_call 1 8 2000 ∷ sweep_call 1 3000 (pos 500) ∷ []

abbrev one_evicted : PlayerStore
one_evicted = record {
  players = (7, record { dpnid = 7; connected_at = 100; evicted_at = 1000 }) ∷ [];
}

run-evicted_example : is_evicted (run some_calls one_evicted) 7 ≡ true
unfolding get is_evicted
run-evicted_example = run-evicted some_calls 7 one_evicted (refl, tt) (tt, (tt, (tt, tt))) refl
