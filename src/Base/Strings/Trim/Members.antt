-- ===== src/Base/Strings/Trim/Members.antt =====
-- What holds of every byte of a text holds of every byte that trimming leaves.
use Prim.Native.Nat.{ℕ, zero, suc, ◌-◌}
use mathlib.Core.Bool.{Bool}
use mathlib.Core.List.{[], ◌∷◌, reverse}
use mathlib.Core.Logic.{inl, inr}
use open_zone.Base.Tests.{eqb, Bool-cases}
use open_zone.Base.Lists.{All, All-reverse}
use open_zone.Base.Keys.{Text}
use open_zone.Base.Strings.Trim.{
  strip, trim_space, trim_suffix, drop_one, drop_while, front_width, back_width,
}

All-strip :
    (P : ℕ → Type 0) (width : Text → ℕ) (k : ℕ) (s : Text) → All P s → All P (strip width k s)
unfolding strip
All-strip P width k [] h = tt
All-strip P width (suc k) (c ∷ r) h = All-strip P width k r h.1
All-strip P width zero (c ∷ r) h = elim (Bool-cases (eqb (width (c ∷ r)) 0)) [
  | inl stop ↦ rw stop h
  | inr more ↦ rw more (All-strip P width (width (c ∷ r) - 1) r h.1)
]

-- Trimming only drops bytes.
pub All-trim_space : (P : ℕ → Type 0) (s : Text) → All P s → All P (trim_space s)
unfolding trim_space
All-trim_space P s h =
    All-reverse P _ (All-strip P back_width 0 _ (All-reverse P _ (All-strip P front_width 0 s h)))

All-drop_one : (P : ℕ → Type 0) (c : ℕ) (s : Text) → All P s → All P (drop_one c s)
unfolding drop_one
All-drop_one P c [] h = tt
All-drop_one P c (x ∷ r) h = elim (Bool-cases (eqb x c)) [ inl e ↦ rw e h.1 | inr e ↦ rw e h ]

pub All-trim_suffix : (P : ℕ → Type 0) (c : ℕ) (s : Text) → All P s → All P (trim_suffix c s)
unfolding trim_suffix
All-trim_suffix P c s h = All-reverse P _ (All-drop_one P c (reverse s) (All-reverse P s h))

All-drop_while : (P : ℕ → Type 0) (p : ℕ → Bool) (s : Text) → All P s → All P (drop_while p s)
unfolding drop_while
All-drop_while P p [] h = tt
All-drop_while P p (c ∷ s) h = elim (Bool-cases (p c)) [
  | inl more ↦ rw more (All-drop_while P p s h.1)
  | inr stop ↦ rw stop h
]
