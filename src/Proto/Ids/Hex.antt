-- ===== src/Proto/Ids/Hex.antt =====
-- ToHex can be read back (internal/proto/util.go).
use open_zone.Base.{
  ℕ, ◌+◌, ◌-◌, ◌*◌, ◌/◌, ◌%◌, ◌<◌, ◌≡◌, refl, true, false, [], ◌∷◌, Text, arith, ltb, if◌then◌else◌,
  length, All, ap, ◌∙◌,
}
use open_zone.Proto.Ids.{upper_digit, hex_bytes, to_hex}

abbrev pub digit_value : ℕ → ℕ
digit_value c = if ltb c 58 then c - 48 else c - 55

-- The bytes of pairs of digits, with one byte between two pairs.
abbrev pub read_pairs : Text → Text
read_pairs (a ∷ b ∷ c ∷ s) = (digit_value a * 16 + digit_value b) ∷ read_pairs s
read_pairs (a ∷ b ∷ []) = (digit_value a * 16 + digit_value b) ∷ []
read_pairs _ = []

pair-value :
    (v : ℕ)
    → v < 256
    → digit_value (upper_digit (v / 16)) * 16 + digit_value (upper_digit (v % 16)) ≡ v
pair-value v h = ground arith

read_pairs-hex_bytes : (b : Text) → All (λ c. c < 256) b → read_pairs (hex_bytes false b) ≡ b
unfolding hex_bytes
read_pairs-hex_bytes [] h = refl
read_pairs-hex_bytes (v ∷ []) h = ap (λ n. n ∷ []) (pair-value v h.0)
read_pairs-hex_bytes (v ∷ w ∷ b) h =
    ap (λ n. n ∷ read_pairs (hex_bytes false (w ∷ b))) (pair-value v h.0)
    ∙ ap (λ (t : Text). v ∷ t) (read_pairs-hex_bytes (w ∷ b) h.1)

length-hex_bytes : (b : Text) → length (hex_bytes true b) ≡ 3 * length b
unfolding hex_bytes
length-hex_bytes [] = refl
length-hex_bytes (v ∷ b) = omega (arith, length-hex_bytes b)

-- The dump of any bytes can be read back to them, and has two digits for each byte and one blank between
-- two of them.
pub to_hex-exact :
    (b : Text)
    → All (λ c. c < 256) b
    → (read_pairs (to_hex b) ≡ b) × (length (to_hex b) ≡ 3 * length b - 1)
unfolding to_hex
to_hex-exact b h = (read_pairs-hex_bytes b h, length_first b)
  where
    length_first : (b : Text) → length (hex_bytes false b) ≡ 3 * length b - 1
    length_first [] = refl
    length_first (v ∷ b) = omega (arith, length-hex_bytes b)
