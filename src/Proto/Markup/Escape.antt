-- ===== src/Proto/Markup/Escape.antt =====
-- What escaping guarantees, and that it loses nothing.
use open_zone.Base.{
  ℕ, zero, suc, ◌≡◌, refl, sym, ap, ◌∙◌, false, [], ◌∷◌, ◌++◌, Text, codes, arith, eqb, eqb_iff,
  subst, if◌then◌else◌, All, All-append, Bool-cases, inl, inr,
}
use open_zone.Base.Strings.{has_prefix}
use open_zone.Proto.Markup.{escape_attr_byte, xml_escape_attr}

-- A byte that may stand inside a quoted attribute value: no quote, no `<` and no `>`.
abbrev pub IsQuotable : ℕ → Type 0
IsQuotable c = (eqb c 34 ≡ false) × ((eqb c 60 ≡ false) × (eqb c 62 ≡ false))

escape_attr_byte-clean : (c : ℕ) → All IsQuotable (escape_attr_byte c)
unfolding escape_attr_byte
escape_attr_byte-clean c = ground arith

pub xml_escape_attr-clean : (s : Text) → All IsQuotable (xml_escape_attr s)
unfolding xml_escape_attr
xml_escape_attr-clean [] = tt
xml_escape_attr-clean (c ∷ s) =
    All-append IsQuotable (escape_attr_byte c) (xml_escape_attr s) (escape_attr_byte-clean c)
      (xml_escape_attr-clean s)

-- The reading of the entities, by a reader of its own: the byte meant, and how many bytes to skip.
entity : ℕ → Text → ℕ × ℕ
entity c rest =
    if eqb c 38
    then (if has_prefix (codes "amp;") rest
        then (38, 4)
        else if has_prefix (codes "quot;") rest
        then (34, 5)
        else if has_prefix (codes "lt;") rest
        then (60, 3)
        else if has_prefix (codes "gt;") rest
        then (62, 3)
        else (38, 0))
    else (c, 0)

pub unescape : ℕ → Text → Text
unescape skip [] = []
unescape (suc k) (c ∷ s) = unescape k s
unescape zero (c ∷ s) = (entity c s).0 ∷ unescape (entity c s).1 s

xml_escape_attr-cons :
    (c : ℕ) (s : Text) → xml_escape_attr (c ∷ s) ≡ escape_attr_byte c ++ xml_escape_attr s
unfolding xml_escape_attr
xml_escape_attr-cons c s = refl

unescape-byte : (c : ℕ) (t : Text) → unescape 0 (escape_attr_byte c ++ t) ≡ c ∷ unescape 0 t
unescape-byte c t = elim (Bool-cases (eqb c 38)) [
  | inl amp ↦
      subst P (sym ((eqb_iff c 38).0 amp))
        (unfold unescape escape_attr_byte entity has_prefix in refl)
  | inr c1 ↦ elim (Bool-cases (eqb c 34)) [
    | inl quote ↦
        subst P (sym ((eqb_iff c 34).0 quote))
          (unfold unescape escape_attr_byte entity has_prefix in refl)
    | inr c2 ↦ elim (Bool-cases (eqb c 60)) [
      | inl lt ↦
          subst P (sym ((eqb_iff c 60).0 lt))
            (unfold unescape escape_attr_byte entity has_prefix in refl)
      | inr c3 ↦ elim (Bool-cases (eqb c 62)) [
        | inl gt ↦
            subst P (sym ((eqb_iff c 62).0 gt))
              (unfold unescape escape_attr_byte entity has_prefix in refl)
        | inr c4 ↦ unfold unescape escape_attr_byte entity in ground arith
      ]
    ]
  ]
]
  where
    P : ℕ → Type 0
    P x = unescape 0 (escape_attr_byte x ++ t) ≡ x ∷ unescape 0 t

unescape-xml_escape_attr : (s : Text) → unescape 0 (xml_escape_attr s) ≡ s
unescape-xml_escape_attr [] = unfold xml_escape_attr unescape in refl
unescape-xml_escape_attr (c ∷ s) =
    ap (unescape 0) (xml_escape_attr-cons c s)
    ∙ unescape-byte c (xml_escape_attr s)
    ∙ ap (◌∷◌ c) (unescape-xml_escape_attr s)

-- Escaped text holds no quote, `<` or `>`, and reading the entities gives the text back: so escaping
-- loses nothing, and different values stay different.
pub xml_escape_attr-exact :
    (s : Text) → All IsQuotable (xml_escape_attr s) × (unescape 0 (xml_escape_attr s) ≡ s)
xml_escape_attr-exact s = (xml_escape_attr-clean s, unescape-xml_escape_attr s)
