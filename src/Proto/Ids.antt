-- ===== src/Proto/Ids.antt =====
-- internal/proto/util.go: MakeRunID and ToHex.
-- `uuid` is the text of a random UUID, if one could be made, and `nanos` the clock's nanoseconds.
pub mod Hex
use open_zone.Base.{
  ℕ, ◌+◌, ◌/◌, ◌%◌, Bool, true, false, Option, none, some, List, [], ◌∷◌, ◌++◌, Text, codes, ltb,
  if◌then◌else◌,
}
use open_zone.Base.Numbers.{decimal}

unfoldable pub make_run_id : Option Text → ℕ → Text
make_run_id none nanos = codes "run-" ++ decimal nanos
make_run_id (some uuid) nanos = codes "run-" ++ uuid

abbrev pub upper_digit : ℕ → ℕ
upper_digit d = if ltb d 10 then 48 + d else 55 + d

-- The loop of `ToHex`; the flag is `i > 0`.
unfoldable pub hex_bytes : Bool → Text → Text
hex_bytes later [] = []
hex_bytes later (v ∷ b) =
    (if later then b' ' ∷ [] else [])
    ++ (upper_digit (v / 16) ∷ upper_digit (v % 16) ∷ hex_bytes true b)

unfoldable pub to_hex : Text → Text
unfolding hex_bytes
to_hex b = hex_bytes false b
