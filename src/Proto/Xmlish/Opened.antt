-- ===== src/Proto/Xmlish/Opened.antt =====
-- `Parse` on a message with a body: only the opening tag is read, and `>` may stand in the body.
use open_zone.Base.{
  ℕ, ◌≡◌, refl, some, List, [], ◌∷◌, ◌++◌, Text, text_eq, arith, length, true, false, eqb, All,
  All-map, All-append, ap, sym, ◌∙◌, append_assoc, append-nil,
}
use native.Mathlib.Nat.{le_refl}
use open_zone.Base.Strings.{trim_suffix, trim_suffix-keep, trim_space-IsSolid, cut_when-first}
use open_zone.Proto.Xmlish.{parse, parse_head}
use open_zone.Proto.Markup.{spaced, wrapped}
use open_zone.Proto.Xmlish.Head.{
  is_plain, IsPlain, AreAttrs, EndsIn-spaced, EndsIn-append, EndsIn-cons, put_all, head_trimmed,
  split-head, trim_space-inner, inner, attr_loop-inner, plain_last,
}
use open_zone.Proto.Xmlish.RoundTrip.{
  nuls, EndsIn-nuls, trim_right-nuls, not_close, spaced-no_close,
}

not_slash : (d : ℕ) → is_plain d ≡ true → eqb d 47 ≡ false
not_slash d h = ground arith

-- The head ends in a quote or in the tag's last byte, so no slash is dropped.
head_kept :
    (tag : Text) (r : List (Text × Text))
    → IsPlain tag
    → trim_suffix 47 (tag ++ spaced r) ≡ tag ++ spaced r
head_kept [] r h = absurd (cc (h.0))
head_kept (c ∷ tag) [] h =
    let (d, (a, e), p) = plain_last c tag h.1 in
    rw (append-nil (c ∷ tag)) (rw e (trim_suffix-keep 47 d a (not_slash d p)))
head_kept (c ∷ tag) ((k, v) ∷ r) h =
    let value = EndsIn-append 34 v (34 ∷ spaced r) (EndsIn-spaced r) in
    let pair = EndsIn-cons 34 61 _ (EndsIn-cons 34 34 _ value) in
    let (a, e) = EndsIn-append 34 (c ∷ tag) _ (EndsIn-cons 34 32 _ (EndsIn-append 34 k _ pair)) in
    rw e (trim_suffix-keep 47 34 a refl)

parse_head-opened :
    (raw tag : Text) (r : List (Text × Text))
    → IsPlain tag
    → AreAttrs r
    → parse_head raw (tag ++ spaced r)
      ≡ some (record { tag = tag; attrs = put_all r []; raw = raw })
unfolding parse_head
parse_head-opened raw [] r ht hr = absurd (cc (ht.0))
parse_head-opened raw (c ∷ tag) r ht hr = rw (head_trimmed (c ∷ tag) r ht) (
    rw (head_kept (c ∷ tag) r ht) (
      rw (head_trimmed (c ∷ tag) r ht) (
        rw (split-head (c ∷ tag) r ht) (
          rw (trim_space-inner r hr)
            (rw (attr_loop-inner (length (inner r)) r [] hr (le_refl (length (inner r)))))))))

-- What stands before the last `>` of a message with a body, behind its opening tag.
abbrev pub behind_head : Text → Text → Text
behind_head tag body = body ++ (60 ∷ 47 ∷ tag)

pub wrapped-snoc :
    (tag : Text) (r : List (Text × Text)) (body : Text)
    → wrapped tag r body ≡ (60 ∷ ((tag ++ spaced r) ++ (62 ∷ behind_head tag body))) ++ 62 ∷ []
unfolding wrapped
wrapped-snoc tag r body =
    ap (λ (t : Text). 60 ∷ t)
      (ap (λ (t : Text). tag ++ (spaced r ++ (62 ∷ t)))
          (sym (append_assoc body (60 ∷ 47 ∷ tag) (62 ∷ [])))
        ∙ sym (append_assoc tag (spaced r) (62 ∷ (behind_head tag body ++ 62 ∷ [])))
        ∙ sym (append_assoc (tag ++ spaced r) (62 ∷ behind_head tag body) (62 ∷ [])))

opening-no_close :
    (tag : Text) (r : List (Text × Text))
    → IsPlain tag
    → AreAttrs r
    → All (λ c. eqb c 62 ≡ false) (60 ∷ (tag ++ spaced r))
opening-no_close tag r ht hr =
    (refl, All-append _ tag _ (All-map tag not_close ht.1) (spaced-no_close r hr))

parse-snoc :
    (tag : Text) (r : List (Text × Text)) (rest : Text) (n : ℕ)
    → IsPlain tag
    → AreAttrs r
    → parse (((60 ∷ ((tag ++ spaced r) ++ (62 ∷ rest))) ++ 62 ∷ []) ++ nuls n)
      ≡ some (record {
        tag = tag;
        attrs = put_all r [];
        raw = (60 ∷ ((tag ++ spaced r) ++ (62 ∷ rest))) ++ 62 ∷ [];
      })
unfolding parse
parse-snoc tag r rest n ht hr =
    let text = 60 ∷ ((tag ++ spaced r) ++ (62 ∷ rest)) in
    let (d, (a, e), sd) = EndsIn-nuls text n in
    rw (trim_space-IsSolid 60 _ a d (omega arith, refl) sd e) (
      rw (trim_right-nuls text n) (
        rw (append_assoc (60 ∷ (tag ++ spaced r)) (62 ∷ rest) (62 ∷ [])) (
          rw
            (cut_when-first (λ x. eqb x 62) (60 ∷ (tag ++ spaced r)) 62 (rest ++ 62 ∷ [])
              (opening-no_close tag r ht hr) refl)
            (parse_head-opened _ tag r ht hr))))

-- A message with a plain tag, plain attribute names, values without quotes and `>`, and any body, with
-- any number of NULs behind it, is read back as its tag and attributes, the last value of each name.
pub parse-wrapped :
    (tag : Text) (r : List (Text × Text)) (body : Text) (n : ℕ)
    → IsPlain tag
    → AreAttrs r
    → parse (wrapped tag r body ++ nuls n)
      ≡ some (record { tag = tag; attrs = put_all r []; raw = wrapped tag r body })
parse-wrapped tag r body n ht hr =
    rw (wrapped-snoc tag r body) (parse-snoc tag r (behind_head tag body) n ht hr)
