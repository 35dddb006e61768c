-- ===== src/Proto/Xmlish/Shape.antt =====
-- What holds of every message that `Parse` accepts, whatever the bytes it was given.
use open_zone.Base.{
  ℕ, zero, suc, ◌≡◌, refl, ◌∙◌, subst, Bool, true, false, not, none, some, [], ◌∷◌, Text, text_eq,
  eqb, All, All-zip, length, drop, Option-cases, Bool-cases, inl, inr, >>=-eq-some, guard-eq-some,
  some_inj, same_text,
}
use open_zone.Base.Dict.{Dict, get, get-put}
use open_zone.Base.Strings.{
  trim_space, trim_right, trim_suffix, cut, cut_byte, cut_when, All-trim_space, All-trim_suffix,
  All-cut, All-cut_when, cut_when-CutAt, cut_when-eq-none,
}
use open_zone.Base.Attrs.{is_empty, next_attr, attr_loop, put_named}
use open_zone.Proto.Xmlish.{Msg, starts_with_byte, is_blank, split_tag, parse_head, parse}
use open_zone.Base.Attrs.Fuel.{attr_loop-stop, attr_loop-next}

-- No `>` and no quote: what an attribute value can be.
abbrev pub IsInner : ℕ → Type 0
IsInner c = eqb c 62 ≡ false

abbrev pub IsBare : Text → Type 0
IsBare = All (λ c. (eqb c 62 ≡ false) × (eqb c 34 ≡ false))

-- Every value of the map is bare, and the empty name has none.
pub record AreBare (m : Dict Text Text) : Type 0 where
  pub values : (k v : Text) → get m k ≡ some v → IsBare v
  pub names : get m [] ≡ none

AreBare-nil : AreBare []
unfolding get
AreBare-nil = record { values = λ k v e. absurd (cc); names = refl }

put_named-AreBare :
    (key val : Text) (m : Dict Text Text) → IsBare val → AreBare m → AreBare (put_named key val m)
put_named-AreBare [] val m hv h = h
put_named-AreBare (c ∷ key) val m hv h = record {
  values = λ k v. rw (get-put m (c ∷ key) k val) (elim (Bool-cases (same_text (c ∷ key) k)) [
    | inl e ↦ rw e (λ e'. subst IsBare (some_inj e') hv)
    | inr e ↦ rw e (h.values k v)
  ]);
  names = get-put m (c ∷ key) [] val ∙ unfold same_text in h.names;
}

next_attr-IsBare :
    (s : Text) (q : Text × Text × Text)
    → next_attr s ≡ some q
    → All IsInner s
    → IsBare q.1 × All IsInner q.2
unfolding next_attr
next_attr-IsBare s q h inner =
    let (a, found, h') = >>=-eq-some (cut (b'=' ∷ b'"' ∷ []) s) _ h in
    let (b, closed, h'') = >>=-eq-some (cut_byte b'"' a.1) _ h' in
    let behind = (All-cut IsInner _ s a found inner).1 in
    let (val, more) = All-cut_when IsInner _ a.1 b closed behind in
    subst (λ (r : Text × Text × Text). IsBare r.1 × All IsInner r.2) (some_inj h'')
      (All-zip _ _ b.0 val (cut_when-CutAt _ a.1 b closed).3, All-trim_space IsInner b.1 more)

attr_loop-AreBare :
    (f : ℕ) (s : Text) (m : Dict Text Text) → All IsInner s → AreBare m → AreBare (attr_loop f s m)
attr_loop-AreBare zero s m hs h = unfold attr_loop in h
attr_loop-AreBare (suc f) [] m hs h = unfold attr_loop in h
attr_loop-AreBare (suc f) (c ∷ s) m hs h = elim (Option-cases (next_attr (c ∷ s))) [
  | inl stop ↦ rw (attr_loop-stop f c s m stop) h
  | inr (q, more) ↦
      let (val, rest) = next_attr-IsBare (c ∷ s) q more hs in
      rw (attr_loop-next f c s m q more)
        (attr_loop-AreBare f q.2 (put_named q.0 q.1 m) rest (put_named-AreBare q.0 q.1 m val h))
]

-- The shape of an accepted message: the tag is not empty and holds no blank and no `>`, the
-- attribute values hold no `>` and no quote, and no attribute has an empty name.
pub record IsMsg (m : Msg) : Type 0 where
  pub tag_some : is_empty m.tag ≡ false
  pub tag_clean : All (λ c. (is_blank c ≡ false) × IsInner c) m.tag
  pub attrs_bare : AreBare m.attrs

split_tag-clean :
    (head : Text)
    → All IsInner head
    → All (λ c. (is_blank c ≡ false) × IsInner c) (split_tag head (cut_when is_blank head)).0
      × All IsInner (split_tag head (cut_when is_blank head)).1
split_tag-clean head h = elim (Option-cases (cut_when is_blank head)) [
  | inl whole ↦ rw whole (All-zip _ _ head (cut_when-eq-none is_blank head whole) h, tt)
  | inr (q, found) ↦
      let (before, behind) = All-cut_when IsInner is_blank head q found h in
      rw found (All-zip _ _ q.0 (cut_when-CutAt is_blank head q found).3 before, behind)
]

not_inv : (b : Bool) → not b ≡ true → b ≡ false
not_inv true h = absurd (cc)
not_inv false h = refl

parse_head-IsMsg :
    (raw head0 : Text) (m : Msg) → All IsInner head0 → parse_head raw head0 ≡ some m → IsMsg m
unfolding parse_head
parse_head-IsMsg raw head0 m h e =
    let (_, e1) = guard-eq-some (not (is_empty (trim_space head0))) _ e in
    let head = trim_space (trim_suffix b'/' (trim_space head0)) in
    let (_, e2) = guard-eq-some (not (is_empty head)) _ e1 in
    let p = split_tag head (cut_when is_blank head) in
    let (named, e3) = guard-eq-some (not (is_empty p.0)) _ e2 in
    let (clean, behind) = split_tag-clean head (
      All-trim_space IsInner _ (All-trim_suffix IsInner b'/' _ (All-trim_space IsInner head0 h))) in
    let rest = trim_space p.1 in
    subst IsMsg (some_inj e3) (record {
      tag_some = not_inv (is_empty p.0) named;
      tag_clean = clean;
      attrs_bare =
          attr_loop-AreBare (length rest) rest [] (All-trim_space IsInner p.1 behind) AreBare-nil;
    })

drop_one-IsInner : (s : Text) → All IsInner s → All IsInner (drop 1 s)
drop_one-IsInner [] h = tt
drop_one-IsInner (c ∷ s) h = h.1

-- Whatever the bytes, a message that `Parse` accepts has a tag that is not empty and holds no blank
-- and no `>`, attribute values that hold no `>` and no quote, and no attribute with an empty name.
pub parse-IsMsg : (s : Text) (m : Msg) → parse s ≡ some m → IsMsg m
unfolding parse
parse-IsMsg s m e =
    let t = trim_space s in
    let (_, e1) = guard-eq-some (starts_with_byte b'<' t) _ e in
    let raw = trim_right (λ c. eqb c 0) t in
    let (q, found, e2) = >>=-eq-some (cut_byte b'>' raw) _ e1 in
    parse_head-IsMsg raw (drop 1 q.0) m (drop_one-IsInner q.0 (cut_when-CutAt _ raw q found).3) e2
