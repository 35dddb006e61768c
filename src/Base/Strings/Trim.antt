-- ===== src/Base/Strings/Trim.antt =====
-- `TrimSpace`, `TrimRight` and `TrimSuffix`.
pub mod Members
use Prim.Native.Nat.{ℕ, zero, suc, ◌-◌, ◌≤◌, ◌<◌}
use mathlib.Core.Path.{◌≡◌, refl, ap, ◌∙◌, sym}
use mathlib.Core.Bool.{Bool, true, false, ◌&&◌, ◌||◌}
use mathlib.Core.List.{[], ◌∷◌, ◌++◌, reverse, reverse-append, reverse-reverse}
use mathlib.Core.Logic.{inl, inr}
use native.Mathlib.Omega.{arith}
use open_zone.Base.Tests.{eqb, eqb_iff, leb, if◌then◌else◌, Bool-cases}
use open_zone.Base.Lists.{length, length-reverse, All, All-reverse}
use open_zone.Base.Keys.{Text}

-- The white space of ASCII: \t \n \v \f \r and the blank.
abbrev pub is_ascii_space : ℕ → Bool
is_ascii_space c = (leb 9 c && leb c 13) || eqb c 32

-- U+0085 and U+00A0 in UTF-8.
is_space2 : ℕ → ℕ → Bool
is_space2 a b = eqb a 0xc2 && (eqb b 0x85 || eqb b 0xa0)

-- U+1680, U+2000 to U+200A, U+2028, U+2029, U+202F, U+205F and U+3000 in UTF-8.
is_space3 : ℕ → ℕ → ℕ → Bool
is_space3 a b c =
    (eqb a 0xe1 && (eqb b 0x9a && eqb c 0x80))
    || ((eqb a 0xe2
          && ((eqb b 0x80
                && ((leb 0x80 c && leb c 0x8a) || (eqb c 0xa8 || (eqb c 0xa9 || eqb c 0xaf))))
              || (eqb b 0x81 && eqb c 0x9f)))
        || (eqb a 0xe3 && (eqb b 0x80 && eqb c 0x80)))

-- How many bytes of white space stand first; 0 if the text begins with something else.
front_width : Text → ℕ
front_width [] = 0
front_width (a ∷ []) = if is_ascii_space a then 1 else 0
front_width (a ∷ b ∷ []) = if is_ascii_space a then 1 else if is_space2 a b then 2 else 0
front_width (a ∷ b ∷ c ∷ r) =
    if is_ascii_space a then 1 else if is_space2 a b then 2 else if is_space3 a b c then 3 else 0

-- The same at the end of a text, which is given from its last byte backwards.
back_width : Text → ℕ
back_width [] = 0
back_width (c ∷ []) = if is_ascii_space c then 1 else 0
back_width (c ∷ b ∷ []) = if is_ascii_space c then 1 else if is_space2 b c then 2 else 0
back_width (c ∷ b ∷ a ∷ r) =
    if is_ascii_space c then 1 else if is_space2 b c then 2 else if is_space3 a b c then 3 else 0

-- Drops `pending` bytes, and then white space for as long as `width` finds some.
strip : (Text → ℕ) → ℕ → Text → Text
strip width pending [] = []
strip width (suc k) (c ∷ r) = strip width k r
strip width zero (c ∷ r) =
    let w = width (c ∷ r) in let rest = strip width (w - 1) r in if eqb w 0 then c ∷ r else rest

unfoldable pub trim_space : Text → Text
unfolding front_width back_width strip is_space2 is_space3
trim_space s = reverse (strip back_width 0 (reverse (strip front_width 0 s)))

drop_while : (ℕ → Bool) → Text → Text
drop_while p [] = []
drop_while p (c ∷ r) = let rest = drop_while p r in if p c then rest else c ∷ r

-- TrimRight, with the cut set as a test on bytes.
unfoldable pub trim_right : (ℕ → Bool) → Text → Text
unfolding drop_while
trim_right p s = reverse (drop_while p (reverse s))

drop_one : ℕ → Text → Text
drop_one c [] = []
drop_one c (x ∷ r) = if eqb x c then r else x ∷ r

-- TrimSuffix, for a suffix of one byte.
unfoldable pub trim_suffix : ℕ → Text → Text
unfolding drop_one
trim_suffix c s = reverse (drop_one c (reverse s))

-- A byte of ASCII that is no white space: nothing is trimmed from it on.
abbrev pub IsSolid : ℕ → Type 0
IsSolid c = (c < 128) × (is_ascii_space c ≡ false)

is_space2_ascii : (b c : ℕ) → c < 128 → is_space2 b c ≡ false
unfolding is_space2
is_space2_ascii b c h = ground arith

is_space3_ascii : (a b c : ℕ) → c < 128 → is_space3 a b c ≡ false
unfolding is_space3
is_space3_ascii a b c h = ground arith

is_space2_front : (a b : ℕ) → a < 128 → is_space2 a b ≡ false
unfolding is_space2
is_space2_front a b h = ground arith

is_space3_front : (a b c : ℕ) → a < 128 → is_space3 a b c ≡ false
unfolding is_space3
is_space3_front a b c h = ground arith

back_width-IsSolid : (c : ℕ) (r : Text) → IsSolid c → back_width (c ∷ r) ≡ 0
unfolding back_width
back_width-IsSolid c [] s = rw (s.1)
back_width-IsSolid c (b ∷ []) s = simp (s.1, is_space2_ascii b c s.0)
back_width-IsSolid c (b ∷ a ∷ r) s = simp (s.1, is_space2_ascii b c s.0, is_space3_ascii a b c s.0)

front_width-IsSolid : (a : ℕ) (r : Text) → IsSolid a → front_width (a ∷ r) ≡ 0
unfolding front_width
front_width-IsSolid a [] s = rw (s.1)
front_width-IsSolid a (b ∷ []) s = simp (s.1, is_space2_front a b s.0)
front_width-IsSolid a (b ∷ c ∷ r) s = simp (s.1, is_space2_front a b s.0, is_space3_front a b c s.0)

front_width-blank : (a : ℕ) (r : Text) → is_ascii_space a ≡ true → front_width (a ∷ r) ≡ 1
unfolding front_width
front_width-blank a [] h = rw h
front_width-blank a (b ∷ []) h = rw h
front_width-blank a (b ∷ c ∷ r) h = rw h

strip_stop :
    (width : Text → ℕ) (c : ℕ) (r : Text) → width (c ∷ r) ≡ 0 → strip width 0 (c ∷ r) ≡ c ∷ r
unfolding strip
strip_stop width c r h = rw h

strip_blank :
    (width : Text → ℕ) (c : ℕ) (r : Text)
    → width (c ∷ r) ≡ 1
    → strip width 0 (c ∷ r) ≡ strip width 0 r
unfolding strip
strip_blank width c r h = rw h

reverse-snoc : (a : Text) (d : ℕ) → reverse (a ++ d ∷ []) ≡ d ∷ reverse a
reverse-snoc a d = reverse-append a (d ∷ [])

snoc-reverse : (a : Text) (d : ℕ) → reverse (d ∷ reverse a) ≡ a ++ d ∷ []
snoc-reverse a d = ap reverse (sym (reverse-snoc a d)) ∙ reverse-reverse (a ++ d ∷ [])

back_width-blank : (a : ℕ) (r : Text) → is_ascii_space a ≡ true → back_width (a ∷ r) ≡ 1
unfolding back_width
back_width-blank a [] h = rw h
back_width-blank a (b ∷ []) h = rw h
back_width-blank a (b ∷ c ∷ r) h = rw h

-- The second half of `trim_space`.
abbrev back : Text → Text
back s = reverse (strip back_width 0 (reverse s))

front_done : (c : ℕ) (r : Text) → IsSolid c → trim_space (c ∷ r) ≡ back (c ∷ r)
unfolding trim_space
front_done c r s = ap back (strip_stop front_width c r (front_width-IsSolid c r s))

-- What begins and ends with solid bytes is left alone.
pub trim_space-IsSolid :
    (c : ℕ) (r a : Text) (d : ℕ)
    → IsSolid c
    → IsSolid d
    → c ∷ r ≡ a ++ d ∷ []
    → trim_space (c ∷ r) ≡ c ∷ r
unfolding trim_space
trim_space-IsSolid c r a d sc sd e =
    front_done c r sc
    ∙ ap back e
    ∙ ap (λ (t : Text). reverse (strip back_width 0 t)) (reverse-snoc a d)
    ∙ ap reverse (strip_stop back_width d (reverse a) (back_width-IsSolid d (reverse a) sd))
    ∙ snoc-reverse a d
    ∙ sym e

pub trim_space_blank :
    (c : ℕ) (r : Text) → is_ascii_space c ≡ true → trim_space (c ∷ r) ≡ trim_space r
unfolding trim_space
trim_space_blank c r h =
    ap (λ (t : Text). reverse (strip back_width 0 (reverse t)))
      (strip_blank front_width c r (front_width-blank c r h))

strip-le : (width : Text → ℕ) (k : ℕ) (s : Text) → length (strip width k s) ≤ length s
unfolding strip
strip-le width k [] = omega arith
strip-le width (suc k) (c ∷ r) = omega (arith, strip-le width k r)
strip-le width zero (c ∷ r) = ground (arith, strip-le width (width (c ∷ r) - 1) r)

pub length-trim_space-le : (s : Text) → length (trim_space s) ≤ length s
unfolding trim_space
length-trim_space-le s =
    let front = strip front_width 0 s in
    omega (
      arith,
      length-reverse (strip back_width 0 (reverse front)),
      strip-le back_width 0 (reverse front),
      length-reverse front,
      strip-le front_width 0 s,
    )

-- Trimming white space at the end of a text that ends in one blank.
pub trim_space-snoc_blank :
    (c : ℕ) (r : Text) (b : ℕ)
    → IsSolid c
    → is_ascii_space b ≡ true
    → trim_space (c ∷ (r ++ b ∷ [])) ≡ trim_space (c ∷ r)
unfolding trim_space
trim_space-snoc_blank c r b sc h =
    front_done c (r ++ b ∷ []) sc
    ∙ ap (λ (t : Text). reverse (strip back_width 0 t)) (reverse-snoc (c ∷ r) b)
    ∙ ap reverse
        (strip_blank back_width b (reverse (c ∷ r)) (back_width-blank b (reverse (c ∷ r)) h))
    ∙ sym (front_done c r sc)

pub trim_right-stop :
    (p : ℕ → Bool) (a : Text) (d : ℕ) → p d ≡ false → trim_right p (a ++ d ∷ []) ≡ a ++ d ∷ []
unfolding trim_right
trim_right-stop p a d h = rw reverse-snoc (unfold drop_while in rw h (snoc-reverse a d))

pub trim_right-drop :
    (p : ℕ → Bool) (a : Text) (d : ℕ) → p d ≡ true → trim_right p (a ++ d ∷ []) ≡ trim_right p a
unfolding trim_right
trim_right-drop p a d h = rw reverse-snoc (unfold drop_while in rw h)

pub trim_suffix-snoc : (c : ℕ) (a : Text) → trim_suffix c (a ++ c ∷ []) ≡ a
unfolding trim_suffix
trim_suffix-snoc c a =
    rw reverse-snoc (unfold drop_one in rw ((eqb_iff c c).1 refl) (reverse-reverse a))

pub trim_suffix-keep :
    (c d : ℕ) (a : Text) → eqb d c ≡ false → trim_suffix c (a ++ d ∷ []) ≡ a ++ d ∷ []
unfolding trim_suffix
trim_suffix-keep c d a h =
    ap (λ (t : Text). reverse (drop_one c t)) (reverse-snoc a d)
    ∙ unfold drop_one in rw h (ap reverse (sym (reverse-snoc a d)) ∙ reverse-reverse (a ++ d ∷ []))
