-- ===== src/Base/Numbers.antt =====
-- Decimal printing of unsigned numbers: `strconv.FormatUint(n, 10)` and `%d`.
-- The recursion takes fuel, since a division is no part of its argument; a number has fewer digits
-- than it counts, so the number itself and one more is enough.
use Prim.Native.Nat.{ℕ, zero, suc, ◌+◌, ◌-◌, ◌*◌, ◌/◌, ◌%◌, ◌^◌, ◌≤◌, ◌<◌}
use mathlib.Core.Path.{◌≡◌, refl, ap, sym, ◌∙◌}
use mathlib.Core.Logic.{inl, inr}
use mathlib.Core.Bool.{Bool, true, ◌&&◌, ◌||◌}
use mathlib.Core.List.{[], ◌∷◌, ◌++◌}
use native.Mathlib.Omega.{arith}
use open_zone.Base.Tests.{ltb, leb, if◌then◌else◌, Bool-cases}
use open_zone.Base.Lists.{All, All-append, length, length-append}
use open_zone.Base.Keys.{Text}

decimal_fuel : ℕ → ℕ → Text
decimal_fuel zero n = []
decimal_fuel (suc f) n =
    let front = decimal_fuel f (n / 10) in
    if ltb n 10 then (48 + n) ∷ [] else front ++ ((48 + n % 10) ∷ [])

unfoldable pub decimal : ℕ → Text
unfolding decimal_fuel
decimal n = decimal_fuel (suc n) n

abbrev pub is_digit : ℕ → Bool
is_digit c = leb 48 c && leb c 57

-- The number that a text of digits denotes.
abbrev pub value_from : ℕ → Text → ℕ
value_from acc [] = acc
value_from acc (c ∷ s) = value_from (acc * 10 + (c - 48)) s

value_from-append :
    (acc : ℕ) (s t : Text) → value_from acc (s ++ t) ≡ value_from (value_from acc s) t
value_from-append acc [] t = refl
value_from-append acc (c ∷ s) t = value_from-append (acc * 10 + (c - 48)) s t

value-decimal_fuel : (f n : ℕ) → n < f → value_from 0 (decimal_fuel f n) ≡ n
unfolding decimal_fuel
value-decimal_fuel zero n h = absurd (omega arith)
value-decimal_fuel (suc f) n h = elim (Bool-cases (ltb n 10)) [
  | inl small ↦ rw small (omega arith)
  | inr large ↦ rw large (
      rw (value_from-append 0 (decimal_fuel f (n / 10)) ((48 + n % 10) ∷ []))
        (rw (value-decimal_fuel f (n / 10) (ground arith)) (omega arith)))
]

-- A printed number reads as that number.
pub value-decimal : (n : ℕ) → value_from 0 (decimal n) ≡ n
unfolding decimal
value-decimal n = value-decimal_fuel (suc n) n (omega arith)

pub length-decimal : (n : ℕ) → 1 ≤ length (decimal n)
unfolding decimal decimal_fuel
length-decimal n = ground (arith, length-append (decimal_fuel n (n / 10)) ((48 + n % 10) ∷ []))

All-decimal_fuel : (f n : ℕ) → All (λ c. is_digit c ≡ true) (decimal_fuel f n)
unfolding decimal_fuel
All-decimal_fuel zero n = tt
All-decimal_fuel (suc f) n = elim (Bool-cases (ltb n 10)) [
  | inl small ↦ rw small (ground arith, tt)
  | inr large ↦
      rw large
        (All-append _ (decimal_fuel f (n / 10)) _ (All-decimal_fuel f (n / 10)) (ground arith, tt))
]

-- A printed number is digits.
pub All-decimal : (n : ℕ) → All (λ c. is_digit c ≡ true) (decimal n)
unfolding decimal
All-decimal n = All-decimal_fuel (suc n) n

-- Different numbers print differently.
pub decimal-injective : (a b : ℕ) → decimal a ≡ decimal b → a ≡ b
unfolding decimal
decimal-injective a b e =
    sym (value-decimal_fuel (suc a) a (omega arith))
    ∙ ap (value_from 0) e
    ∙ value-decimal_fuel (suc b) b (omega arith)

hex_digit : ℕ → ℕ
hex_digit d = if ltb d 10 then 48 + d else 87 + d

-- `%08x` of a uint32 value
unfoldable pub hex8 : ℕ → Text
unfolding hex_digit
hex8 n =
    hex_digit (n / 2 ^ 28 % 16)
    ∷ hex_digit (n / 2 ^ 24 % 16)
    ∷ hex_digit (n / 2 ^ 20 % 16)
    ∷ hex_digit (n / 2 ^ 16 % 16)
    ∷ hex_digit (n / 2 ^ 12 % 16)
    ∷ hex_digit (n / 2 ^ 8 % 16)
    ∷ hex_digit (n / 2 ^ 4 % 16)
    ∷ hex_digit (n % 16)
    ∷ []

-- A digit of `%08x`.
abbrev pub is_hex_digit : ℕ → Bool
is_hex_digit c = is_digit c || (leb 97 c && leb c 102)

hex_digit-is_hex : (d : ℕ) → d < 16 → is_hex_digit (hex_digit d) ≡ true
unfolding hex_digit
hex_digit-is_hex d h = ground arith

pub All-hex8 : (n : ℕ) → All (λ c. is_hex_digit c ≡ true) (hex8 n)
unfolding hex8
All-hex8 n = (
  digit (n / 2 ^ 28),
  (
    digit (n / 2 ^ 24),
    (
      digit (n / 2 ^ 20),
      (
        digit (n / 2 ^ 16),
        (digit (n / 2 ^ 12), (digit (n / 2 ^ 8), (digit (n / 2 ^ 4), (digit n, tt)))),
      ),
    ),
  ),
)
  where
    digit : (m : ℕ) → is_hex_digit (hex_digit (m % 16)) ≡ true
    digit m = hex_digit-is_hex (m % 16) (omega arith)
