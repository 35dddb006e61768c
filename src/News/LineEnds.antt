-- ===== src/News/LineEnds.antt =====
-- The news text has the line ends that the client wants (internal/news/server.go).
use open_zone.Base.{
  ℕ, ◌≡◌, refl, ap, Bool, true, false, not, ◌&&◌, ◌||◌, [], ◌∷◌, Text, arith, eqb, Bool-cases, inl,
  inr,
}
use open_zone.Base.Strings.{contains, contains-cons}
use open_zone.Proto.Xmlish.{starts_with_byte}
use open_zone.News.{crlf_to_lf, lf_to_crlf, ensure_crlf}

-- Every line feed has a carriage return before it; `prev` is the byte before the text.
abbrev pub lines_end : ℕ → Text → Bool
lines_end prev [] = true
lines_end prev (c ∷ s) = (not (eqb c b'\n') || eqb prev b'\r') && lines_end c s

lines_end-lf_to_crlf : (prev : ℕ) (t : Text) → lines_end prev (lf_to_crlf t) ≡ true
unfolding lf_to_crlf
lines_end-lf_to_crlf prev [] = refl
lines_end-lf_to_crlf prev (c ∷ t) = elim (Bool-cases (eqb c b'\n')) [
  | inl lf ↦ rw lf (ground (arith, lines_end-lf_to_crlf b'\n' t))
  | inr other ↦ rw other (ground (arith, lines_end-lf_to_crlf c t))
]

starts-lf_to_crlf : (t : Text) → starts_with_byte b'\n' (lf_to_crlf t) ≡ false
unfolding lf_to_crlf
starts-lf_to_crlf [] = refl
starts-lf_to_crlf (c ∷ t) = elim (Bool-cases (eqb c b'\n')) [
  | inl lf ↦ rw lf refl
  | inr other ↦ rw other other
]

pub crlf_to_lf-lf_to_crlf : (t : Text) → crlf_to_lf (lf_to_crlf t) ≡ t
unfolding crlf_to_lf lf_to_crlf
crlf_to_lf-lf_to_crlf [] = refl
crlf_to_lf-lf_to_crlf (c ∷ t) = elim (Bool-cases (eqb c b'\n')) [
  | inl lf ↦ rw lf (ground (arith, crlf_to_lf-lf_to_crlf t))
  | inr other ↦ rw other (ground (arith, crlf_to_lf-lf_to_crlf t, starts-lf_to_crlf t))
]

no_feeds : (prev : ℕ) (s : Text) → contains s (b'\n' ∷ []) ≡ false → lines_end prev s ≡ true
no_feeds prev [] h = refl
no_feeds prev (c ∷ s) h =
    let here = contains-cons b'\n' c s in
    let other : eqb c b'\n' ≡ false = ground (arith, here) in
    rw other (no_feeds c s (ground (arith, here)))

-- The text that is served has a carriage return before every line feed, its lines are those of the
-- template's output, and converting it again changes nothing.
pub ensure_crlf-exact :
    (s : Text)
    → (lines_end 0 (ensure_crlf s) ≡ true)
      × (crlf_to_lf (ensure_crlf s) ≡ crlf_to_lf s)
      × (ensure_crlf (ensure_crlf s) ≡ ensure_crlf s)
unfolding ensure_crlf
ensure_crlf-exact s = elim (Bool-cases (contains s (b'\n' ∷ []))) [
  | inr single ↦ rw single (no_feeds 0 s single, refl, rw single refl)
  | inl feeds ↦
      let t = crlf_to_lf s in
      rw feeds (
        lines_end-lf_to_crlf 0 t,
        crlf_to_lf-lf_to_crlf t,
        elim (Bool-cases (contains (lf_to_crlf t) (b'\n' ∷ []))) [
          | inl again ↦ rw again (ap lf_to_crlf (crlf_to_lf-lf_to_crlf t))
          | inr stop ↦ rw stop refl
        ],
      )
]
