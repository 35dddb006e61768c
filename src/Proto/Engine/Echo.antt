-- ===== src/Proto/Engine/Echo.antt =====
-- What the client of the fallback of internal/proto/protocol.go reads in the answer.
pub mod Sorted
use open_zone.Base.{
  ℕ, ◌≡◌, refl, sym, ap, ◌∙◌, false, Option, none, some, inl, inr, List, [], ◌∷◌, ◌++◌, Text, codes,
  text_eq, ◌==◌, if◌then◌else◌, arith, map, Bool-cases, append_assoc, All-append,
}
use open_zone.Base.Attrs.{is_empty}
use open_zone.Base.Dict.{Dict, get, put, UniqueKeys, get-put, get-put_ne}
use open_zone.Proto.Markup.{printed, spaced}
use open_zone.Proto.Xmlish.{Msg, parse, make_z_text}
use open_zone.Proto.Xmlish.Head.{IsPlain, AreAttrs, put_all}
use open_zone.Proto.Xmlish.RoundTrip.{parse-printed}
use open_zone.State.Time.{Time}
use open_zone.Proto.Engine.{Outbound, Engine, out}
use open_zone.Proto.Engine.Cases.{is_known, handle-cases}
use open_zone.Proto.Engine.Handlers.{Readings, success}
use open_zone.Proto.Engine.Wire.{make_z_text-printed, name, IsValue-literal}
use open_zone.Proto.Engine.Dispatch.{
  text_le, insert_text, sort_texts, pair_text, join_parts, is_unsafe, holds_unsafe, hr_part,
  handle_fallback, handle,
}
use open_zone.Base.Strings.{cut_when}
use open_zone.Proto.Engine.Echo.Sorted.{
  Attribute, sort_pairs, map-sort, join_parts-spaced, sort_pairs-AreAttrs, sorted, first_of,
  get-put_all,
}

-- The attributes of the answer.
abbrev answered : Msg → List Attribute
answered m = (codes "HR", success) ∷ sort_pairs m.attrs

answered-AreAttrs : (m : Msg) → AreAttrs m.attrs → AreAttrs (answered m)
answered-AreAttrs m a =
    ((name (codes "HR") refl, IsValue-literal success refl), sort_pairs-AreAttrs m.attrs a)

handle_fallback-printed :
    (m : Msg)
    → is_empty m.tag ≡ false
    → holds_unsafe (cut_when is_unsafe m.tag) ≡ false
    → handle_fallback m
      ≡ out
          (m.tag ++ codes "Res")
          (printed (m.tag ++ codes "Res") (answered m))
          (codes "send-fallback")
        ∷ []
unfolding handle_fallback printed join_parts
handle_fallback-printed m some_tag safe =
    let pairs = ap join_parts (map-sort m.attrs) ∙ join_parts-spaced (sort_pairs m.attrs) in
    rw (some_tag, safe)
      (ap
        (λ (t : Text).
          out (m.tag ++ codes "Res")
            (60 ∷ ((m.tag ++ codes "Res") ++ ((32 ∷ (hr_part ++ t)) ++ codes " />")))
            (codes "send-fallback")
          ∷ [])
        pairs)

Res-IsPlain : (tag : Text) → IsPlain tag → IsPlain (tag ++ codes "Res")
Res-IsPlain [] h = absurd (cc (h.0))
Res-IsPlain (c ∷ tag) h =
    (refl, All-append _ (c ∷ tag) (codes "Res") h.1 (name (codes "Res") refl).1)

handle-handle_fallback :
    (now : Time) (clock : Readings) (from : ℕ) (ip : Text) (m : Msg) (p : Engine)
    → is_known m.tag ≡ false
    → handle now clock from ip m p ≡ (p, handle_fallback m)
handle-handle_fallback now clock from ip m p unknown =
    handle-cases (λ (x : Engine × List Outbound). x ≡ (p, handle_fallback m)) now clock from ip m p
      (λ e. absurd (ground arith)) (λ e. absurd (ground arith)) (λ e. absurd (ground arith))
      (λ e. absurd (ground arith)) (λ e. absurd (ground arith)) (λ n e. absurd (ground arith))
      (λ k. refl)

-- A message with a tag that has no handler is echoed: if its tag is plain and holds nothing that the fallback
-- refuses, and its attributes are plain, each name once, the engine stays as it was and there is one answer,
-- which parses, as it is sent, to the tag with `Res` behind it and to the attributes of the message; a message without an `HR` gets one from the server, and nothing else is added.
pub handle-echo :
    (now : Time) (clock : Readings) (from : ℕ) (ip : Text) (m : Msg) (p : Engine)
    → is_known m.tag ≡ false
    → IsPlain m.tag
    → holds_unsafe (cut_when is_unsafe m.tag) ≡ false
    → AreAttrs m.attrs
    → UniqueKeys m.attrs
    → (o : Outbound) × (handle now clock from ip m p ≡ (p, o ∷ []))
      × ((r : Msg) × (parse (make_z_text o.payload_xml) ≡ some r)
          × (r.tag ≡ m.tag ++ codes "Res")
          × ((hr : Text) × ((k : Text)
                → get r.attrs k ≡ first_of (get m.attrs k) (get ((codes "HR", hr) ∷ []) k))))
unfolding put
handle-echo now clock from ip m p unknown plain safe attrs unique =
    let tag = m.tag ++ codes "Res" in
    let (unique', same) = sorted m.attrs unique in
    (
      out tag (printed tag (answered m)) (codes "send-fallback"),
      handle-handle_fallback now clock from ip m p unknown
          ∙ ap (λ (os : List Outbound). (p, os)) (handle_fallback-printed m plain.0 safe),
      (
        _,
        ap parse (make_z_text-printed tag (answered m))
            ∙ parse-printed tag (answered m) 1 (Res-IsPlain m.tag plain)
                (answered-AreAttrs m attrs),
        refl,
        (
          success,
          λ k.
              get-put_all (sort_pairs m.attrs) ((codes "HR", success) ∷ []) k unique'
              ∙ ap (λ (o : Option Text). first_of o (get ((codes "HR", success) ∷ []) k)) (same k),
        ),
      ),
    )
