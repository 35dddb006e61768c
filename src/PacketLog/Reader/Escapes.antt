-- ===== src/PacketLog/Reader/Escapes.antt =====
-- A text is read back from its escapes (internal/packetlog/packetlog.go).
use open_zone.Base.{
  ℕ, zero, suc, ◌≤◌, ◌<◌, ◌≡◌, ◌⊎◌, refl, ap, subst, ◌∙◌, true, false, none, some, inl, inr, [],
  ◌∷◌, ◌++◌, Text, codes, ltb, if◌then◌else◌, arith, Bool-cases, Option-cases, drop, append_assoc,
}
use open_zone.PacketLog.Json.{
  Mode, copy, skip, escape_ascii, is_cont, rune_rest, rune_out, separator, escape,
}
use open_zone.PacketLog.Json.Printable.{Owes, rune_out-Owes}
use open_zone.PacketLog.Reader.{plain, token, prepend, read_chars}

-- A text with U+FFFD for each byte that is no UTF-8, after `n` bytes that end a rune.
unfoldable pub to_valid : ℕ → Text → Text
to_valid n [] = []
to_valid (suc n) (c ∷ s) = c ∷ to_valid n s
to_valid zero (c ∷ s) =
    let rest = to_valid zero s in
    if ltb c 128
    then c ∷ rest
    else elim (rune_rest c s) [ none ↦ 239 ∷ 191 ∷ 189 ∷ rest | some n ↦ c ∷ to_valid n s ]

-- What the escapes of the rest stand for.
abbrev left : Mode → Text → Text
left (copy n) s = to_valid n s
left (skip n) s = to_valid 0 (drop n s)

read_ascii :
    (c : ℕ) (t : Text)
    → c < 128
    → read_chars plain (escape_ascii c ++ t) ≡ prepend (c ∷ []) (read_chars plain t)
unfolding read_chars token escape_ascii
read_ascii c t h = ground arith

read_wide :
    (c : ℕ) (t : Text) → 128 ≤ c → read_chars plain (c ∷ t) ≡ prepend (c ∷ []) (read_chars plain t)
unfolding read_chars token
read_wide c t h = ground arith

-- The escape of a byte that is no UTF-8.
read_broken :
    (t : Text)
    → read_chars plain (codes "\\ufffd" ++ t) ≡ prepend (239 ∷ 191 ∷ 189 ∷ []) (read_chars plain t)
unfolding read_chars token
read_broken t = ground arith

-- One rune: what its escape is read as, and what is then left.
record IsRead (c : ℕ) (s : Text) : Type 0 where
  front : Text
  reads : (t : Text) → read_chars plain ((rune_out c s).0 ++ t) ≡ prepend front (read_chars plain t)
  whole : front ++ left (rune_out c s).1 s ≡ to_valid 0 (c ∷ s)

rune-ascii : (c : ℕ) (s : Text) → c < 128 → IsRead c s
unfolding rune_out to_valid
rune-ascii c s low =
    let small : ltb c 128 ≡ true = ground arith in
    record { front = c ∷ []; reads = λ t. rw small (read_ascii c t low); whole = rw small refl }

rune-copied : (c : ℕ) (s : Text) → 128 ≤ c → separator c s ≡ none → IsRead c s
unfolding rune_out to_valid
rune-copied c s high no_sep =
    let wide : ltb c 128 ≡ false = ground arith in
    elim (Option-cases (rune_rest c s)) [
      | inl broken ↦ record {
        front = 239 ∷ 191 ∷ 189 ∷ [];
        reads = λ t. rw (wide, no_sep, broken) (read_broken t);
        whole = rw (wide, no_sep, broken) refl;
      }
      | inr (n, found) ↦ record {
        front = c ∷ [];
        reads = λ t. rw (wide, no_sep, found) (read_wide c t high);
        whole = rw (wide, no_sep, found) refl;
      }
    ]

-- U+2028 and U+2029
separator-IsRead : (e : ℕ) (s : Text) → (e ≡ 168) ⊎ (e ≡ 169) → IsRead 226 (128 ∷ e ∷ s)
unfolding rune_out rune_rest separator read_chars token to_valid
separator-IsRead e [] (inl at) =
    rw at (record { front = 226 ∷ 128 ∷ 168 ∷ []; reads = λ t. ground arith; whole = refl })
separator-IsRead e (f ∷ s) (inl at) =
    rw at (record { front = 226 ∷ 128 ∷ 168 ∷ []; reads = λ t. ground arith; whole = refl })
separator-IsRead e [] (inr at) =
    rw at (record { front = 226 ∷ 128 ∷ 169 ∷ []; reads = λ t. ground arith; whole = refl })
separator-IsRead e (f ∷ s) (inr at) =
    rw at (record { front = 226 ∷ 128 ∷ 169 ∷ []; reads = λ t. ground arith; whole = refl })

IsRead-separator : (c : ℕ) (s : Text) (k : ℕ) → separator c s ≡ some k → IsRead c s
unfolding separator
IsRead-separator c [] k found = absurd (cc)
IsRead-separator c (d ∷ []) k found = absurd (cc)
IsRead-separator c (d ∷ e ∷ s) k found =
    let first : 226 ≡ c = ground arith in
    let second : 128 ≡ d = ground arith in
    let last : (e ≡ 168) ⊎ (e ≡ 169) = ground arith in
    subst (λ x. IsRead x (d ∷ e ∷ s)) first
      (subst (λ x. IsRead 226 (x ∷ e ∷ s)) second (separator-IsRead e s last))

rune-IsRead : (c : ℕ) (s : Text) → IsRead c s
rune-IsRead c s = elim (Bool-cases (ltb c 128)) [
  | inl ascii ↦ rune-ascii c s (ground arith)
  | inr wide ↦ elim (Option-cases (separator c s)) [
    | inl other ↦ rune-copied c s (ground arith) other
    | inr (k, found) ↦ IsRead-separator c s k found
  ]
]

-- The rune in front, and then the rest.
rune-then :
    (c : ℕ) (s rest : Text)
    → read_chars plain (escape (rune_out c s).1 s ++ b'"' ∷ rest)
      ≡ some (left (rune_out c s).1 s, rest)
    → read_chars plain (((rune_out c s).0 ++ escape (rune_out c s).1 s) ++ b'"' ∷ rest)
      ≡ some (to_valid 0 (c ∷ s), rest)
rune-then c s rest h =
    let r = rune-IsRead c s in
    ap (read_chars plain) (append_assoc (rune_out c s).0 _ _)
    ∙ r.reads _
    ∙ ap (prepend r.front) h
    ∙ ap (λ (u : Text). some (u, rest)) r.whole

is_cont-high : (c : ℕ) → is_cont c ≡ true → 128 ≤ c
is_cont-high c h = ground arith

read_escape :
    (m : Mode) (s rest : Text)
    → Owes m s
    → read_chars plain (escape m s ++ b'"' ∷ rest) ≡ some (left m s, rest)
unfolding escape read_chars token to_valid
read_escape (copy zero) [] rest h = refl
read_escape (copy (suc n)) [] rest h = refl
read_escape (skip zero) [] rest h = refl
read_escape (skip (suc n)) [] rest h = refl
read_escape (copy (suc n)) (c ∷ s) rest h =
    read_wide c _ (is_cont-high c h.0) ∙ ap (prepend (c ∷ [])) (read_escape (copy n) s rest h.1)
read_escape (skip (suc n)) (c ∷ s) rest h = read_escape (skip n) s rest h.1
read_escape (copy zero) (c ∷ s) rest h =
    rune-then c s rest (read_escape (rune_out c s).1 s rest (rune_out-Owes c s))
read_escape (skip zero) (c ∷ s) rest h =
    rune-then c s rest (read_escape (rune_out c s).1 s rest (rune_out-Owes c s))

-- A text is what its escapes are read as, up to the bytes that are no UTF-8.
pub read_chars-escape :
    (s rest : Text)
    → read_chars plain (escape (copy 0) s ++ b'"' ∷ rest) ≡ some (to_valid 0 s, rest)
read_chars-escape s rest = read_escape (copy 0) s rest tt
