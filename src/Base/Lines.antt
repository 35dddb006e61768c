-- ===== src/Base/Lines.antt =====
-- Texts by their lines.
use Prim.Native.Nat.{ℕ, ◌≤◌}
use mathlib.Core.Path.{◌≡◌, refl, ap, ◌∙◌, sym}
use mathlib.Core.Logic.{inl, inr}
use mathlib.Core.Bool.{Bool, true, false}
use mathlib.Core.List.{List, [], ◌∷◌, ◌++◌, append_assoc}
use native.Mathlib.Omega.{arith}
use open_zone.Base.Tests.{eqb, if◌then◌else◌, Bool-cases}
use open_zone.Base.Lists.{All, All-append}
use open_zone.Base.Keys.{Text}

-- No control character.
abbrev pub IsPrintable : ℕ → Type 0
IsPrintable c = 32 ≤ c

-- The lines of a text, each ended by a line feed; a last line without one counts too.
abbrev onto : ℕ → List Text → List Text
onto c [] = (c ∷ []) ∷ []
onto c (l ∷ ls) = (c ∷ l) ∷ ls

abbrev pub lines : Text → List Text
lines [] = []
lines (c ∷ s) = if eqb c b'\n' then [] ∷ lines s else onto c (lines s)

pub lines-cons : (l s : Text) → All IsPrintable l → lines (l ++ b'\n' ∷ s) ≡ l ∷ lines s
lines-cons [] s h = refl
lines-cons (c ∷ l) s h =
    let other : eqb c b'\n' ≡ false = ground arith in rw other (ap (onto c) (lines-cons l s h.1))

-- Empty, or ended by a line feed.
abbrev pub ends_line : Text → Bool
ends_line [] = true
ends_line (c ∷ []) = eqb c b'\n'
ends_line (c ∷ d ∷ s) = ends_line (d ∷ s)

onto-append :
    (c d : ℕ) (t : Text) (ls : List Text)
    → onto c (lines (d ∷ t) ++ ls) ≡ onto c (lines (d ∷ t)) ++ ls
onto-append c d t ls = elim (Bool-cases (eqb d b'\n')) [
  | inl feed ↦ rw feed refl
  | inr other ↦ rw other (onto_twice (lines t))
]
  where
    onto_twice : (xs : List Text) → onto c (onto d xs ++ ls) ≡ onto c (onto d xs) ++ ls
    onto_twice [] = refl
    onto_twice (x ∷ xs) = refl

pub lines-append : (old s : Text) → ends_line old ≡ true → lines (old ++ s) ≡ lines old ++ lines s
lines-append [] s h = refl
lines-append (c ∷ []) s h = rw h refl
lines-append (c ∷ d ∷ t) s h = elim (Bool-cases (eqb c b'\n')) [
  | inl feed ↦ rw feed (ap (λ (ls : List Text). [] ∷ ls) (lines-append (d ∷ t) s h))
  | inr other ↦ rw other (ap (onto c) (lines-append (d ∷ t) s h) ∙ onto-append c d t (lines s))
]

pub ends_line-snoc : (s : Text) → ends_line (s ++ b'\n' ∷ []) ≡ true
ends_line-snoc [] = refl
ends_line-snoc (c ∷ []) = refl
ends_line-snoc (c ∷ d ∷ s) = ends_line-snoc (d ∷ s)

-- A line in two parts.
pub lines-labelled :
    (label v s : Text)
    → All IsPrintable label
    → All IsPrintable v
    → lines (label ++ (v ++ b'\n' ∷ s)) ≡ (label ++ v) ∷ lines s
lines-labelled label v s hl hv =
    ap lines (sym (append_assoc label v (b'\n' ∷ s)))
    ∙ lines-cons (label ++ v) s (All-append IsPrintable label v hl hv)
