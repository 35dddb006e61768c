-- ===== src/Proto/Xmlish/Head.antt =====
-- What `Parse` makes of the inside of a printed tag: the tag itself and the attribute list.
use open_zone.Base.{
  ℕ, zero, suc, ◌≤◌, ◌<◌, ◌≡◌, refl, some, List, [], ◌∷◌, ◌++◌, Text, text_eq, arith, length, Bool,
  true, false, ◌&&◌, ◌||◌, not, eqb, ltb, All, All-map, ap, sym, ◌∙◌, append_assoc, append-nil,
}
use native.Mathlib.Nat.{le_refl}
use open_zone.Base.Dict.{Dict, put}
use open_zone.Base.Strings.{
  trim_space, trim_suffix, cut_when, IsSolid, trim_space-IsSolid, trim_space_blank, cut-first,
  trim_suffix-snoc, trim_space-snoc_blank, cut_when-first, cut_when-none,
}
use open_zone.Proto.Markup.{spaced}
use open_zone.Base.Attrs.{next_attr, attr_loop, put_named, is_empty}
use open_zone.Proto.Xmlish.{parse_head, is_blank, split_tag}
use open_zone.Base.Attrs.Fuel.{attr_loop-next, length-next_attr-lt}

-- A byte of a tag or an attribute name: printable ASCII, but no blank and none of `"`, `/`, `=`, `>`.
abbrev pub is_plain : ℕ → Bool
is_plain c = ltb 32 c && (ltb c 127 && not (eqb c 34 || (eqb c 47 || (eqb c 61 || eqb c 62))))

abbrev pub IsPlain : Text → Type 0
IsPlain s = (is_empty s ≡ false) × All (λ c. is_plain c ≡ true) s

-- A value holds no quote and no `>`.
abbrev pub IsValue : Text → Type 0
IsValue = All (λ c. (eqb c 34 ≡ false) × (eqb c 62 ≡ false))

abbrev pub AreAttrs : List (Text × Text) → Type 0
AreAttrs = All (λ kv. IsPlain kv.0 × IsValue kv.1)

pub plain-IsSolid : (c : ℕ) → is_plain c ≡ true → IsSolid c
plain-IsSolid c h = ground arith

-- The last byte of `s` is `d`.
abbrev pub EndsIn : ℕ → Text → Type 0
EndsIn d s = (a : Text) × (s ≡ a ++ d ∷ [])

pub EndsIn-cons : (d c : ℕ) (s : Text) → EndsIn d s → EndsIn d (c ∷ s)
EndsIn-cons d c s (a, e) = (c ∷ a, ap (λ (t : Text). c ∷ t) e)

pub EndsIn-append : (d : ℕ) (p s : Text) → EndsIn d s → EndsIn d (p ++ s)
EndsIn-append d [] s h = h
EndsIn-append d (c ∷ p) s h = EndsIn-cons d c (p ++ s) (EndsIn-append d p s h)

pub EndsIn-spaced : (r : List (Text × Text)) → EndsIn 34 (34 ∷ spaced r)
EndsIn-spaced [] = ([], refl)
EndsIn-spaced ((k, v) ∷ r) =
    let value = EndsIn-append 34 v (34 ∷ spaced r) (EndsIn-spaced r) in
    let pair = EndsIn-cons 34 61 _ (EndsIn-cons 34 34 _ value) in
    EndsIn-cons 34 34 _ (EndsIn-cons 34 32 _ (EndsIn-append 34 k _ pair))

pub plain_last :
    (c : ℕ) (s : Text)
    → All (λ x. is_plain x ≡ true) (c ∷ s)
    → (d : ℕ) × EndsIn d (c ∷ s) × (is_plain d ≡ true)
plain_last c [] h = (c, ([], refl), h.0)
plain_last c (x ∷ s) h = let (d, e, p) = plain_last x s h.1 in (d, EndsIn-cons d c (x ∷ s) e, p)

-- A text from a plain byte to a solid one is not trimmed.
pub trim_space-EndsIn :
    (c : ℕ) (s : Text) (d : ℕ)
    → is_plain c ≡ true
    → IsSolid d
    → EndsIn d (c ∷ s)
    → trim_space (c ∷ s) ≡ c ∷ s
trim_space-EndsIn c s d p sd (a, e) = trim_space-IsSolid c s a d (plain-IsSolid c p) sd e

trim_space-IsPlain : (k : Text) → IsPlain k → trim_space k ≡ k
trim_space-IsPlain [] h = absurd (cc (h.0))
trim_space-IsPlain (c ∷ k) h =
    let (d, e, p) = plain_last c k h.1 in trim_space-EndsIn c k d h.1.0 (plain-IsSolid d p) e

-- `spaced` without its first blank
abbrev pub inner : List (Text × Text) → Text
inner [] = []
inner ((k, v) ∷ r) = k ++ (61 ∷ 34 ∷ (v ++ (34 ∷ spaced r)))

pub trim_space-inner : (r : List (Text × Text)) → AreAttrs r → trim_space (inner r) ≡ inner r
trim_space-inner [] h = unfold trim_space in refl
trim_space-inner (([], v) ∷ r) h = absurd (cc (h.0.0.0))
trim_space-inner ((c ∷ k, v) ∷ r) h =
    let value = EndsIn-append 34 v (34 ∷ spaced r) (EndsIn-spaced r) in
    let pair = EndsIn-cons 34 61 _ (EndsIn-cons 34 34 _ value) in
    trim_space-EndsIn c _ 34 h.0.0.1.0 (refl', refl) (EndsIn-append 34 (c ∷ k) _ pair)
  where
    refl' : 34 < 128
    refl' = omega arith

trim_space-spaced : (r : List (Text × Text)) → AreAttrs r → trim_space (spaced r) ≡ inner r
trim_space-spaced [] h = unfold trim_space in refl
trim_space-spaced ((k, v) ∷ r) h =
    trim_space_blank 32 (inner ((k, v) ∷ r)) refl ∙ trim_space-inner ((k, v) ∷ r) h

next_attr-inner :
    (k v : Text) (r : List (Text × Text))
    → AreAttrs ((k, v) ∷ r)
    → next_attr (inner ((k, v) ∷ r)) ≡ some (k, v, inner r)
unfolding next_attr
next_attr-inner k v r h =
    rw (cut-first 61 (34 ∷ []) k (v ++ (34 ∷ spaced r)) (All-map k (λ c p. ground arith) h.0.0.1)) (
      rw (cut_when-first (λ x. eqb x 34) v 34 (spaced r) (All-map v (λ c p. p.0) h.0.1) refl)
        (rw (trim_space-IsPlain k h.0.0, trim_space-spaced r h.1)))

-- The map that the loop builds: later attributes overwrite earlier ones of the same name.
abbrev pub put_all : List (Text × Text) → Dict Text Text → Dict Text Text
put_all [] m = m
put_all ((k, v) ∷ r) m = put_all r (put m k v)

put_named-IsPlain : (k v : Text) (m : Dict Text Text) → IsPlain k → put_named k v m ≡ put m k v
put_named-IsPlain k v m h = rw (h.0)

pub attr_loop-inner :
    (f : ℕ) (r : List (Text × Text)) (m : Dict Text Text)
    → AreAttrs r
    → length (inner r) ≤ f
    → attr_loop f (inner r) m ≡ put_all r m
attr_loop-inner zero [] m h le = unfold attr_loop in refl
attr_loop-inner (suc f) [] m h le = unfold attr_loop in refl
attr_loop-inner f (([], v) ∷ r) m h le = absurd (cc (h.0.0.0))
attr_loop-inner zero ((c ∷ k, v) ∷ r) m h le = absurd (omega arith)
attr_loop-inner (suc f) ((c ∷ k, v) ∷ r) m h le =
    let found = next_attr-inner (c ∷ k) v r h in
    attr_loop-next f c _ m _ found
    ∙ ap (attr_loop f (inner r)) (put_named-IsPlain (c ∷ k) v m h.0.0)
    ∙ attr_loop-inner f r (put m (c ∷ k) v) h.1
        (omega (arith, length-next_attr-lt (inner ((c ∷ k, v) ∷ r)) _ found))

not_blank : (c : ℕ) → is_plain c ≡ true → is_blank c ≡ false
not_blank c h = ground arith

-- The tag is found, and behind its blank the attributes.
pub split-head :
    (tag : Text) (r : List (Text × Text))
    → IsPlain tag
    → split_tag (tag ++ spaced r) (cut_when is_blank (tag ++ spaced r)) ≡ (tag, inner r)
split-head tag [] h =
    rw (append-nil tag) (rw (cut_when-none is_blank tag (All-map tag not_blank h.1)))
split-head tag ((k, v) ∷ r) h =
    rw (cut_when-first is_blank tag 32 (inner ((k, v) ∷ r)) (All-map tag not_blank h.1) refl)

pub head_trimmed :
    (tag : Text) (r : List (Text × Text))
    → IsPlain tag
    → trim_space (tag ++ spaced r) ≡ tag ++ spaced r
head_trimmed tag [] h = rw (append-nil tag) (trim_space-IsPlain tag h)
head_trimmed [] (kv ∷ r) h = absurd (cc (h.0))
head_trimmed (c ∷ tag) ((k, v) ∷ r) h =
    let value = EndsIn-append 34 v (34 ∷ spaced r) (EndsIn-spaced r) in
    let pair = EndsIn-cons 34 61 _ (EndsIn-cons 34 34 _ value) in
    trim_space-EndsIn c _ 34 h.1.0 (quote_ascii, refl)
      (EndsIn-append 34 (c ∷ tag) _ (EndsIn-cons 34 32 _ (EndsIn-append 34 k _ pair)))
  where
    quote_ascii : 34 < 128
    quote_ascii = omega arith

-- The head as it stands before `/>`: blank and slash are dropped.
bare_head :
    (tag : Text) (r : List (Text × Text))
    → IsPlain tag
    → (trim_space (tag ++ (spaced r ++ (32 ∷ 47 ∷ []))) ≡ tag ++ (spaced r ++ (32 ∷ 47 ∷ [])))
      × (trim_space (trim_suffix 47 (tag ++ (spaced r ++ (32 ∷ 47 ∷ [])))) ≡ tag ++ spaced r)
bare_head [] r h = absurd (cc (h.0))
bare_head (c ∷ tag) r h = (
  trim_space-EndsIn c _ 47 h.1.0 (slash_ascii, refl)
      (EndsIn-append 47 (c ∷ tag) _ (EndsIn-append 47 (spaced r) _ (32 ∷ [], refl))),
  ap (λ (t : Text). trim_space (trim_suffix 47 t)) (regroup (c ∷ tag))
      ∙ ap trim_space (trim_suffix-snoc 47 ((c ∷ tag) ++ (spaced r ++ (32 ∷ []))))
      ∙ ap (λ (t : Text). trim_space (c ∷ t)) (sym (append_assoc tag (spaced r) (32 ∷ [])))
      ∙ trim_space-snoc_blank c (tag ++ spaced r) 32 (plain-IsSolid c h.1.0) refl
      ∙ head_trimmed (c ∷ tag) r h,
)
  where
    slash_ascii : 47 < 128
    slash_ascii = omega arith

    regroup :
        (t : Text) → t ++ (spaced r ++ (32 ∷ 47 ∷ [])) ≡ (t ++ (spaced r ++ (32 ∷ []))) ++ 47 ∷ []
    regroup t =
        ap (λ (u : Text). t ++ u) (sym (append_assoc (spaced r) (32 ∷ []) (47 ∷ [])))
        ∙ sym (append_assoc t (spaced r ++ (32 ∷ [])) (47 ∷ []))

pub parse_head-printed :
    (raw tag : Text) (r : List (Text × Text))
    → IsPlain tag
    → AreAttrs r
    → parse_head raw (tag ++ (spaced r ++ (32 ∷ 47 ∷ [])))
      ≡ some (record { tag = tag; attrs = put_all r []; raw = raw })
unfolding parse_head
parse_head-printed raw [] r ht hr = absurd (cc (ht.0))
parse_head-printed raw (c ∷ tag) r ht hr =
    let (whole, bare) = bare_head (c ∷ tag) r ht in
    rw whole (
      rw bare (
        rw (split-head (c ∷ tag) r ht) (
          rw (trim_space-inner r hr)
            (rw (attr_loop-inner (length (inner r)) r [] hr (le_refl (length (inner r))))))))
