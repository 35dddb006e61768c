-- ===== src/Base/Keys.antt =====
-- Byte texts, and equality tests for the keys of maps.
-- A Go string is a list of bytes; a literal of the source is ASCII, so its bytes are its code points.
use Prim.Native.Nat.{ℕ}
use Prim.Native.Char.{code}
use Prim.Native.String.{String}
use mathlib.Core.Path.{◌≡◌, refl}
use mathlib.Core.Logic.{◌↔◌, ◌≢◌, inl, inr}
use mathlib.Core.Bool.{Bool, true, false, ◌&&◌}
use mathlib.Core.List.{List, [], ◌∷◌}
use native.Mathlib.Omega.{arith}
use open_zone.Base.Tests.{eqb, eqb_iff, Bool-cases}

abbrev pub Text : Type 0
Text = List ℕ

abbrev pub codes : String → Text
codes String.[] = []
codes (String.◌∷◌ c s) = code c ∷ codes s

unfoldable pub same_text : Text → Text → Bool
same_text [] [] = true
same_text (x ∷ xs) (y ∷ ys) = eqb x y && same_text xs ys
same_text _ _ = false

pub same_text_iff : (a b : Text) → (same_text a b ≡ true) ↔ (a ≡ b)
unfolding same_text
same_text_iff (x ∷ a) (y ∷ b) = ground (arith, same_text_iff a b)
same_text_iff _ _ = ground arith

-- `==` of a comparable type.
pub record Comparable {ℓ} (A : Type ℓ) : Type ℓ where
  pub equals : A → A → Bool
  pub equals_iff : (a b : A) → (equals a b ≡ true) ↔ (a ≡ b)

infix 50 ◌==◌
abbrev pub ◌==◌ {ℓ} : {A : Type ℓ} ⦃e : Comparable A⦄ → A → A → Bool
◌==◌ ⦃e⦄ = e.equals

instance abbrev pub nat_eq : Comparable ℕ
nat_eq = record { equals = eqb; equals_iff = eqb_iff }

instance abbrev pub text_eq : Comparable Text
text_eq = record { equals = same_text; equals_iff = same_text_iff }

module _ {ℓ} {A : Type ℓ} ⦃e : Comparable A⦄ where
  pub equals_refl : (a : A) → (a == a) ≡ true
  equals_refl a = (e.equals_iff a a).1 refl

  pub equals_of_ne : (a b : A) → a ≢ b → (a == b) ≡ false
  equals_of_ne a b h = elim (Bool-cases (a == b)) [
    | inl same ↦ absurd (h ((e.equals_iff a b).0 same))
    | inr other ↦ other
  ]
