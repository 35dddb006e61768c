-- ===== src/Proto/Xmlish/RoundTrip.antt =====
-- `Parse` reads back every message that is printed with a plain tag, plain attribute names and
-- values without quotes: the tag, and each attribute, the later one where a name stands twice.
use open_zone.Base.{
  ℕ, zero, suc, ◌≡◌, refl, some, List, [], ◌∷◌, ◌++◌, Text, text_eq, arith, true, false, eqb, All,
  All-map, All-append, ap, sym, ◌∙◌, append_assoc, append-nil,
}
use open_zone.Base.Strings.{
  IsSolid, trim_space-IsSolid, trim_right, trim_right-stop, trim_right-drop, cut_when-first,
}
use open_zone.Proto.Xmlish.{parse}
use open_zone.Proto.Markup.{spaced, printed}
use open_zone.Proto.Xmlish.Head.{is_plain, IsPlain, AreAttrs, EndsIn, put_all, parse_head-printed}

-- The NULs behind a message; clients send one or more.
abbrev pub nuls : ℕ → Text
nuls zero = []
nuls (suc n) = nuls n ++ (0 ∷ [])

pub EndsIn-nuls : (a : Text) (n : ℕ) → (d : ℕ) × EndsIn d ((a ++ 62 ∷ []) ++ nuls n) × IsSolid d
EndsIn-nuls a zero = (62, (a, append-nil (a ++ 62 ∷ [])), (omega arith, refl))
EndsIn-nuls a (suc n) = (
  0,
  ((a ++ 62 ∷ []) ++ nuls n, sym (append_assoc (a ++ 62 ∷ []) (nuls n) (0 ∷ []))),
  (omega arith, refl),
)

pub trim_right-nuls :
    (a : Text) (n : ℕ) → trim_right (λ c. eqb c 0) ((a ++ 62 ∷ []) ++ nuls n) ≡ a ++ 62 ∷ []
trim_right-nuls a zero =
    ap (trim_right (λ c. eqb c 0)) (append-nil (a ++ 62 ∷ []))
    ∙ trim_right-stop (λ c. eqb c 0) a 62 refl
trim_right-nuls a (suc n) =
    ap (trim_right (λ c. eqb c 0)) (sym (append_assoc (a ++ 62 ∷ []) (nuls n) (0 ∷ [])))
    ∙ trim_right-drop (λ c. eqb c 0) ((a ++ 62 ∷ []) ++ nuls n) 0 refl
    ∙ trim_right-nuls a n

pub not_close : (c : ℕ) → is_plain c ≡ true → eqb c 62 ≡ false
not_close c h = ground arith

pub spaced-no_close : (r : List (Text × Text)) → AreAttrs r → All (λ c. eqb c 62 ≡ false) (spaced r)
spaced-no_close [] h = tt
spaced-no_close ((k, v) ∷ r) h = (
  refl,
  All-append _ k _ (All-map k not_close h.0.0.1)
      (refl, (refl, All-append _ v _ (All-map v (λ c p. p.1) h.0.1) (refl, spaced-no_close r h.1))),
)

-- Nothing before the closing `>` is a `>`.
pub no_close :
    (tag : Text) (r : List (Text × Text))
    → IsPlain tag
    → AreAttrs r
    → All (λ c. eqb c 62 ≡ false) (60 ∷ (tag ++ (spaced r ++ (32 ∷ 47 ∷ []))))
no_close tag r ht hr = (
  refl,
  All-append _ tag _ (All-map tag not_close ht.1)
      (All-append _ (spaced r) (32 ∷ 47 ∷ []) (spaced-no_close r hr) (refl, (refl, tt))),
)

-- The message without its closing `>`.
abbrev pub open_tag : Text → List (Text × Text) → Text
open_tag tag r = 60 ∷ (tag ++ (spaced r ++ (32 ∷ 47 ∷ [])))

pub printed-snoc : (tag : Text) (r : List (Text × Text)) → printed tag r ≡ open_tag tag r ++ 62 ∷ []
unfolding printed
printed-snoc tag r =
    ap (λ (t : Text). 60 ∷ (tag ++ t)) (sym (append_assoc (spaced r) (32 ∷ 47 ∷ []) (62 ∷ [])))
    ∙ ap (λ (t : Text). 60 ∷ t) (sym (append_assoc tag (spaced r ++ (32 ∷ 47 ∷ [])) (62 ∷ [])))

parse-open_tag :
    (tag : Text) (r : List (Text × Text)) (n : ℕ)
    → IsPlain tag
    → AreAttrs r
    → parse ((open_tag tag r ++ 62 ∷ []) ++ nuls n)
      ≡ some (record { tag = tag; attrs = put_all r []; raw = open_tag tag r ++ 62 ∷ [] })
unfolding parse
parse-open_tag tag r n ht hr =
    let (d, (a, e), sd) = EndsIn-nuls (open_tag tag r) n in
    rw (trim_space-IsSolid 60 _ a d (omega arith, refl) sd e) (
      rw (trim_right-nuls (open_tag tag r) n) (
        rw (cut_when-first (λ x. eqb x 62) (open_tag tag r) 62 [] (no_close tag r ht hr) refl)
          (parse_head-printed (open_tag tag r ++ 62 ∷ []) tag r ht hr)))

-- Printing a message with a plain tag, plain attribute names and values without quotes and `>`, and
-- parsing the result, with any number of NULs behind it, gives back the tag and the attributes, the
-- last value of each name.
pub parse-printed :
    (tag : Text) (r : List (Text × Text)) (n : ℕ)
    → IsPlain tag
    → AreAttrs r
    → parse (printed tag r ++ nuls n)
      ≡ some (record { tag = tag; attrs = put_all r []; raw = printed tag r })
parse-printed tag r n ht hr = rw (printed-snoc tag r) (parse-open_tag tag r n ht hr)
