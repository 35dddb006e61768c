-- ===== src/Proto/Xmlish/Scan.antt =====
-- What `scanSelfClosingElements` (internal/state/host_store.go) makes of printed elements.
use open_zone.Base.{
  ℕ, zero, suc, ◌≤◌, ◌<◌, ◌≡◌, refl, ap, sym, ◌∙◌, Bool, true, false, none, some, List, [], ◌∷◌,
  ◌++◌, Text, text_eq, arith, length, drop-append, eqb, map, All, append_assoc, append-nil,
}
use native.Mathlib.Nat.{le_refl}
use open_zone.Base.Attrs.{attr_loop}
use open_zone.Base.Dict.{Dict, put}
use open_zone.Base.Strings.{
  trim_space, trim_suffix, cut, cut-first, cut_when-first, has_prefix-append, contains,
  trim_space_blank, trim_suffix-snoc, trim_space-snoc_blank, contains-append,
}
use open_zone.State.Items.{
  parse_attrs, next_tag, add_tag, add_attrs, scan_loop, scan_self_closing_elements,
}
use open_zone.State.Items.Fuel.{scan_loop-next, scan_loop-stop, length-next_tag-lt}
use open_zone.Proto.Markup.{spaced, printed}
use open_zone.Proto.Xmlish.Head.{
  IsPlain, AreAttrs, plain-IsSolid, inner, trim_space-inner, trim_space-EndsIn, EndsIn-append,
  attr_loop-inner, put_all,
}
use open_zone.Proto.Xmlish.RoundTrip.{no_close}

-- ` k="v" … /` is read as its attributes.
parse_attrs-spaced :
    (r : List (Text × Text)) → AreAttrs r → parse_attrs (spaced r ++ (32 ∷ 47 ∷ [])) ≡ put_all r []
parse_attrs-spaced [] h = unfold parse_attrs trim_space trim_suffix attr_loop in refl
parse_attrs-spaced (([], v) ∷ r) h = absurd (cc (h.0.0.0))
parse_attrs-spaced ((c ∷ k, v) ∷ r) h =
    unfold parse_attrs in
    rw (trim_space_blank 32 (inner all ++ (32 ∷ 47 ∷ [])) refl) (
      rw whole
        (rw bare (attr_loop-inner (length (inner all)) all [] h (le_refl (length (inner all))))))
  where
    all : List (Text × Text)
    all = (c ∷ k, v) ∷ r

    tail : Text
    tail = k ++ (61 ∷ 34 ∷ (v ++ (34 ∷ spaced r)))

    slash_ascii : 47 < 128
    slash_ascii = omega arith

    whole : trim_space (inner all ++ (32 ∷ 47 ∷ [])) ≡ inner all ++ (32 ∷ 47 ∷ [])
    whole =
        trim_space-EndsIn c _ 47 h.0.0.1.0 (slash_ascii, refl)
          (EndsIn-append 47 (inner all) (32 ∷ 47 ∷ []) (32 ∷ [], refl))

    bare : trim_space (trim_suffix 47 (inner all ++ (32 ∷ 47 ∷ []))) ≡ inner all
    bare =
        ap (λ (t : Text). trim_space (trim_suffix 47 t))
          (sym (append_assoc (inner all) (32 ∷ []) (47 ∷ [])))
        ∙ ap trim_space (trim_suffix-snoc 47 (inner all ++ (32 ∷ [])))
        ∙ trim_space-snoc_blank c tail 32 (plain-IsSolid c h.0.0.1.0) refl
        ∙ trim_space-inner all h

-- Elements one after the other.
abbrev pub elements : Text → List (List (Text × Text)) → Text → Text
elements name [] post = post
elements name (r ∷ items) post = printed name r ++ elements name items post

printed-append :
    (name : Text) (r : List (Text × Text)) (rest : Text)
    → printed name r ++ rest ≡ 60 ∷ (name ++ ((spaced r ++ (32 ∷ 47 ∷ [])) ++ (62 ∷ rest)))
unfolding printed
printed-append name r rest =
    ap (λ (t : Text). 60 ∷ t)
      (append_assoc name (spaced r ++ (32 ∷ 47 ∷ 62 ∷ [])) rest
        ∙ ap (λ (t : Text). name ++ t)
            (append_assoc (spaced r) (32 ∷ 47 ∷ 62 ∷ []) rest
              ∙ sym (append_assoc (spaced r) (32 ∷ 47 ∷ []) (62 ∷ rest))))

-- What stands between the brackets of a printed element.
abbrev inside : Text → List (Text × Text) → Text
inside name r = name ++ (spaced r ++ (32 ∷ 47 ∷ []))

next_tag-printed :
    (name : Text) (r : List (Text × Text)) (rest : Text)
    → IsPlain name
    → AreAttrs r
    → next_tag name (printed name r ++ rest) ≡ some (inside name r, rest)
unfolding next_tag
next_tag-printed name r rest hn hr =
    let behind = (spaced r ++ (32 ∷ 47 ∷ [])) ++ (62 ∷ rest) in
    rw (printed-append name r rest) (
      rw (cut-first 60 name [] behind tt) (
        rw (sym (append_assoc (60 ∷ name) (spaced r ++ (32 ∷ 47 ∷ [])) (62 ∷ rest))) (
          rw
            (cut_when-first (λ x. eqb x 62) (60 ∷ inside name r) 62 rest (no_close name r hn hr)
              refl)
            refl)))

abbrev pub is_nil {ℓ} : {A : Type ℓ} → List A → Bool
is_nil [] = true
is_nil (x ∷ xs) = false

is_nil-put_all :
    (r : List (Text × Text)) (m : Dict Text Text) → is_nil m ≡ false → is_nil (put_all r m) ≡ false
unfolding put
is_nil-put_all [] m h = h
is_nil-put_all (kv ∷ r) [] h = absurd (cc)
is_nil-put_all ((k, v) ∷ r) (e ∷ m) h =
    is_nil-put_all r (put (e ∷ m) k v) (ground (arith, text_eq.equals_iff e.0 k))

add_attrs_some :
    (m : Dict Text Text) (out : List (Dict Text Text))
    → is_nil m ≡ false
    → add_attrs m out ≡ out ++ m ∷ []
add_attrs_some [] out h = absurd (cc)
add_attrs_some (e ∷ m) out h = refl

-- Attributes as an element has them: at least one.
abbrev pub IsElement : List (Text × Text) → Type 0
IsElement r = AreAttrs r × (is_nil r ≡ false)

add_tag-printed :
    (name : Text) (r : List (Text × Text)) (out : List (Dict Text Text))
    → IsElement r
    → add_tag name (inside name r) out ≡ out ++ put_all r [] ∷ []
unfolding add_tag put
add_tag-printed name [] out (h, some_attrs) = absurd (cc)
add_tag-printed name ((k, v) ∷ r) out (h, some_attrs) =
    let all = (k, v) ∷ r in
    rw (has_prefix-append name (spaced all ++ (32 ∷ 47 ∷ []))) (
      rw (closing name all) (
        rw (drop-append name (spaced all ++ (32 ∷ 47 ∷ []))) (
          rw (parse_attrs-spaced all h)
            (add_attrs_some (put_all all []) out (is_nil-put_all r (put [] k v) refl)))))
  where
    closing : (name : Text) (r : List (Text × Text)) → contains (inside name r) (47 ∷ []) ≡ true
    closing name r =
        ap (λ (t : Text). contains t (47 ∷ []))
          (ap (λ (t : Text). name ++ t) (sym (append_assoc (spaced r) (32 ∷ []) (47 ∷ [])))
            ∙ sym (append_assoc name (spaced r ++ (32 ∷ [])) (47 ∷ [])))
        ∙ contains-append (name ++ (spaced r ++ (32 ∷ []))) 47 []

scan_loop-elements :
    (f : ℕ) (name : Text) (items : List (List (Text × Text))) (post : Text)
    (out : List (Dict Text Text))
    → IsPlain name
    → All IsElement items
    → cut (60 ∷ name) post ≡ none
    → length (elements name items post) ≤ f
    → scan_loop f name (elements name items post) out ≡ out ++ map (λ r. put_all r []) items
scan_loop-elements f name [] post out hn h ends le =
    scan_loop-stop f name post out (unfold next_tag in rw ends refl) ∙ sym (append-nil out)
scan_loop-elements zero name (r ∷ items) post out hn h ends le = absurd (
    omega (
      arith,
      length-next_tag-lt name _ _ (next_tag-printed name r (elements name items post) hn h.0.0),
    ))
scan_loop-elements (suc f) name (r ∷ items) post out hn h ends le =
    let next = next_tag-printed name r (elements name items post) hn h.0.0 in
    scan_loop-next f name _ out _ next
    ∙ ap (scan_loop f name (elements name items post)) (add_tag-printed name r out h.0)
    ∙ scan_loop-elements f name items post (out ++ put_all r [] ∷ []) hn h.1 ends
        (omega (arith, length-next_tag-lt name _ _ next))
    ∙ append_assoc out (put_all r [] ∷ []) (map (λ r. put_all r []) items)

-- The scan finds every printed element of its name, in order, with the attributes that were printed
-- (the last value of each name), whatever follows them, as long as no further element of the name
-- begins there. The elements have plain attribute names, values without quotes and `>`, and at least
-- one attribute.
pub scan_self_closing_elements-printed :
    (name : Text) (items : List (List (Text × Text))) (post : Text)
    → IsPlain name
    → All IsElement items
    → cut (60 ∷ name) post ≡ none
    → scan_self_closing_elements (elements name items post) name ≡ map (λ r. put_all r []) items
unfolding scan_self_closing_elements
scan_self_closing_elements-printed name items post hn h ends =
    scan_loop-elements (length (elements name items post)) name items post [] hn h ends
      (le_refl (length (elements name items post)))
