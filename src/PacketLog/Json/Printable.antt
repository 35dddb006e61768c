-- ===== src/PacketLog/Json/Printable.antt =====
-- The escapes of encoding/json leave no control character (internal/packetlog/packetlog.go).
use open_zone.Base.{
  ℕ, zero, suc, ◌≤◌, ◌≡◌, refl, true, Option, none, some, inl, inr, List, [], ◌∷◌, Text, ltb, arith,
  All, All-append, All-map, Bool-cases,
}
use open_zone.Base.Lines.{IsPrintable}
use open_zone.Base.Numbers.{decimal, All-decimal}
use open_zone.PacketLog.Json.{
  Value, text, int, Member, Mode, copy, skip, escape_ascii, is_cont, rune_rest, rune_out, separator,
  wide_out, escape, quoted, marshal_value, marshal_members, marshal_object,
}

-- The first `n` bytes, as far as there are any, are above ASCII.
abbrev pub AreConts : ℕ → Text → Type 0
AreConts zero s = Unit
AreConts (suc n) [] = Unit
AreConts (suc n) (c ∷ s) = (is_cont c ≡ true) × AreConts n s

abbrev pub Owes : Mode → Text → Type 0
Owes (copy n) s = AreConts n s
Owes (skip n) s = AreConts n s

escape_ascii-IsPrintable : (c : ℕ) → c ≤ 127 → All IsPrintable (escape_ascii c)
unfolding escape_ascii
escape_ascii-IsPrintable c h = ground arith

AreConts-nil : (n : ℕ) → AreConts n []
AreConts-nil zero = tt
AreConts-nil (suc n) = tt

rune_rest-AreConts : (c n : ℕ) (s : Text) → rune_rest c s ≡ some n → AreConts n s
unfolding rune_rest
rune_rest-AreConts c zero s h = tt
rune_rest-AreConts c (suc n) [] h = tt
rune_rest-AreConts c (suc n) (d ∷ []) h = (ground arith, AreConts-nil n)
rune_rest-AreConts c (suc zero) (d ∷ e ∷ []) h = (ground arith, tt)
rune_rest-AreConts c (suc (suc n)) (d ∷ e ∷ []) h = (ground arith, (ground arith, AreConts-nil n))
rune_rest-AreConts c (suc zero) (d ∷ e ∷ f ∷ s) h = (ground arith, tt)
rune_rest-AreConts c (suc (suc zero)) (d ∷ e ∷ f ∷ s) h = (ground arith, (ground arith, tt))
rune_rest-AreConts c (suc (suc (suc zero))) (d ∷ e ∷ f ∷ s) h =
    (ground arith, (ground arith, (ground arith, tt)))
rune_rest-AreConts c (suc (suc (suc (suc n)))) (d ∷ e ∷ f ∷ s) h = absurd (ground arith)

separator-IsPrintable : (c : ℕ) (s : Text) (d : ℕ) → separator c s ≡ some d → 48 ≤ d
unfolding separator
separator-IsPrintable c [] d h = absurd (cc)
separator-IsPrintable c (x ∷ []) d h = absurd (cc)
separator-IsPrintable c (x ∷ y ∷ s) d h = ground arith

wide_out-IsPrintable :
    (c : ℕ) (n sep : Option ℕ)
    → 32 ≤ c
    → ((d : ℕ) → sep ≡ some d → 48 ≤ d)
    → All IsPrintable (wide_out c n sep).0
wide_out-IsPrintable c none sep big h = omega arith
wide_out-IsPrintable c (some n) none big h = (big, tt)
wide_out-IsPrintable c (some n) (some d) big h = omega (arith, h d refl)

rune_out-IsPrintable : (c : ℕ) (s : Text) → All IsPrintable (rune_out c s).0
unfolding rune_out
rune_out-IsPrintable c s = elim (Bool-cases (ltb c 128)) [
  | inl ascii ↦ rw ascii (escape_ascii-IsPrintable c (ground arith))
  | inr wide ↦ rw wide (
      wide_out-IsPrintable c (rune_rest c s) (separator c s) (ground arith)
        (separator-IsPrintable c s))
]

wide_out-Owes :
    (c : ℕ) (s : Text) (n sep : Option ℕ)
    → ((k : ℕ) → n ≡ some k → AreConts k s)
    → Owes (wide_out c n sep).1 s
wide_out-Owes c s none sep h = tt
wide_out-Owes c s (some n) none h = h n refl
wide_out-Owes c s (some n) (some d) h = h n refl

pub rune_out-Owes : (c : ℕ) (s : Text) → Owes (rune_out c s).1 s
unfolding rune_out
rune_out-Owes c s = elim (Bool-cases (ltb c 128)) [
  | inl ascii ↦ rw ascii tt
  | inr wide ↦
      rw wide (wide_out-Owes c s (rune_rest c s) (separator c s) (λ k. rune_rest-AreConts c k s))
]

escape-IsPrintable : (m : Mode) (s : Text) → Owes m s → All IsPrintable (escape m s)
unfolding escape
escape-IsPrintable m [] h = tt
escape-IsPrintable (copy (suc n)) (c ∷ s) h = (ground arith, escape-IsPrintable (copy n) s h.1)
escape-IsPrintable (skip (suc n)) (c ∷ s) h = escape-IsPrintable (skip n) s h.1
escape-IsPrintable (copy zero) (c ∷ s) h =
    All-append IsPrintable (rune_out c s).0 _ (rune_out-IsPrintable c s)
      (escape-IsPrintable (rune_out c s).1 s (rune_out-Owes c s))
escape-IsPrintable (skip zero) (c ∷ s) h =
    All-append IsPrintable (rune_out c s).0 _ (rune_out-IsPrintable c s)
      (escape-IsPrintable (rune_out c s).1 s (rune_out-Owes c s))

quoted-IsPrintable : (s : Text) → All IsPrintable (quoted s)
quoted-IsPrintable s = (
  omega arith,
  All-append IsPrintable (escape (copy 0) s) _ (escape-IsPrintable (copy 0) s tt) (omega arith, tt),
)

value-IsPrintable : (v : Value) → All IsPrintable (marshal_value v)
value-IsPrintable (text s) = quoted-IsPrintable s
value-IsPrintable (int n) = All-map (decimal n) (λ c d. ground arith) (All-decimal n)

members-IsPrintable :
    (sep : Text) (fields : List Member)
    → All IsPrintable sep
    → All IsPrintable (marshal_members sep fields)
unfolding marshal_members
members-IsPrintable sep [] h = (omega arith, tt)
members-IsPrintable sep ((name, v) ∷ rest) h = All-append IsPrintable sep _ h (
    All-append IsPrintable (quoted name) _ (quoted-IsPrintable name) (
      omega arith,
      All-append IsPrintable (marshal_value v) _ (value-IsPrintable v)
          (members-IsPrintable (b',' ∷ []) rest (omega arith, tt)),
    ))

pub line-IsPrintable : (fields : List Member) → All IsPrintable (marshal_object fields)
unfolding marshal_object
line-IsPrintable fields = (omega arith, members-IsPrintable [] fields tt)
