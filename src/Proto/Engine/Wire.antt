-- ===== src/Proto/Engine/Wire.antt =====
-- Answers on the wire: what a client needs to find in one, and the names and values that the handlers
-- of internal/proto/protocol.go put in.
use open_zone.Base.{
  ℕ, ◌≡◌, refl, ap, ◌∙◌, Bool, true, not, ◌&&◌, some, List, [], ◌∷◌, ◌++◌, Text, codes, text_eq,
  arith, eqb, All, All-map, All-append, every, All-every,
}
use open_zone.Base.Attrs.{is_empty}
use open_zone.Base.Numbers.{decimal, hex8, All-decimal, All-hex8}
use open_zone.Base.Dict.{get}
use open_zone.Base.Strings.{trim_right-stop}
use open_zone.State.Players.{is_some}
use open_zone.Proto.Markup.{printed, wrapped, xml_escape_attr}
use open_zone.Proto.Markup.Escape.{xml_escape_attr-clean}
use open_zone.Proto.Xmlish.{Msg, parse, make_z_text}
use open_zone.Proto.Xmlish.Head.{is_plain, IsPlain, IsValue, AreAttrs, put_all}
use open_zone.Proto.Xmlish.RoundTrip.{parse-printed, printed-snoc, open_tag, nuls}
use open_zone.Proto.Xmlish.Opened.{parse-wrapped, wrapped-snoc, behind_head}
use open_zone.Proto.Engine.{Outbound, out}

-- The bytes that are sent parse to a message with the answer's tag, the context and a result.
abbrev pub Answers : Text → Outbound → Type 0
Answers cx o =
    (r : Msg) × (parse (make_z_text o.payload_xml) ≡ some r)
    × (r.tag ≡ o.tag)
    × (get r.attrs (codes "Cx") ≡ some cx)
    × (is_some (get r.attrs (codes "HR")) ≡ true)

pub make_z_text-printed :
    (tag : Text) (r : List (Text × Text)) → make_z_text (printed tag r) ≡ printed tag r ++ nuls 1
unfolding make_z_text
make_z_text-printed tag r =
    ap (λ (t : Text). t ++ (0 ∷ []))
      (rw (printed-snoc tag r) (trim_right-stop _ (open_tag tag r) 62 refl))

pub make_z_text-wrapped :
    (tag : Text) (r : List (Text × Text)) (body : Text)
    → make_z_text (wrapped tag r body) ≡ wrapped tag r body ++ nuls 1
unfolding make_z_text
make_z_text-wrapped tag r body =
    ap (λ (t : Text). t ++ (0 ∷ []))
      (rw (wrapped-snoc tag r body)
        (trim_right-stop _ (60 ∷ ((tag ++ _) ++ (62 ∷ behind_head tag body))) 62 refl))

-- What a reader finds in the attributes of an answer.
abbrev pub Carries : Text → List (Text × Text) → Type 0
Carries cx r =
    (get (put_all r []) (codes "Cx") ≡ some cx) × (is_some (get (put_all r []) (codes "HR")) ≡ true)

pub printed-Answers :
    (cx tag : Text) (r : List (Text × Text)) (exp : Text)
    → IsPlain tag
    → AreAttrs r
    → Carries cx r
    → Answers cx (out tag (printed tag r) exp)
printed-Answers cx tag r exp ht hr (has_cx, has_hr) =
    (_, ap parse (make_z_text-printed tag r) ∙ parse-printed tag r 1 ht hr, refl, has_cx, has_hr)

pub wrapped-Answers :
    (cx tag : Text) (r : List (Text × Text)) (body exp : Text)
    → IsPlain tag
    → AreAttrs r
    → Carries cx r
    → Answers cx (out tag (wrapped tag r body) exp)
wrapped-Answers cx tag r body exp ht hr (has_cx, has_hr) = (
  _,
  ap parse (make_z_text-wrapped tag r body) ∙ parse-wrapped tag r body 1 ht hr,
  refl,
  has_cx,
  has_hr,
)

-- Names and values that the handlers spell out.
pub name : (k : Text) → not (is_empty k) && every is_plain k ≡ true → IsPlain k
name k h = (ground arith, All-every is_plain k (ground arith))

-- Names that are spelled out, with their values.
pub named-AreAttrs :
    (r : List (Text × Text))
    → every (λ (kv : Text × Text). not (is_empty kv.0) && every is_plain kv.0) r ≡ true
    → All (λ (kv : Text × Text). IsValue kv.1) r
    → AreAttrs r
named-AreAttrs [] h hv = tt
named-AreAttrs ((k, v) ∷ r) h hv =
    ((name k (ground arith), hv.0), named-AreAttrs r (ground arith) hv.1)

abbrev pub value_byte : ℕ → Bool
value_byte c = not (eqb c 34) && not (eqb c 62)

pub IsValue-literal : (v : Text) → every value_byte v ≡ true → IsValue v
IsValue-literal v h = All-map v (λ c p. (ground arith, ground arith)) (All-every value_byte v h)

pub IsValue-escape : (s : Text) → IsValue (xml_escape_attr s)
IsValue-escape s = All-map (xml_escape_attr s) (λ c p. (p.0, p.1.1)) (xml_escape_attr-clean s)

pub IsValue-decimal : (n : ℕ) → IsValue (decimal n)
IsValue-decimal n = All-map (decimal n) (λ c p. (ground arith, ground arith)) (All-decimal n)

pub IsValue-hex8 : (n : ℕ) → IsValue (codes "0x" ++ hex8 n)
IsValue-hex8 n =
    All-append _ (codes "0x") (hex8 n) (IsValue-literal (codes "0x") refl)
      (All-map (hex8 n) (λ c p. (ground arith, ground arith)) (All-hex8 n))
