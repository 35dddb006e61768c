-- ===== src/Proto/Xmlish.antt =====
-- internal/proto/xmlish.go: the parser of one XML-ish message and the outbound framing.
-- The loop over the attributes is `attr_loop` of Base/Attrs.
pub mod Head
pub mod RoundTrip
pub mod Opened
pub mod Scan
pub mod Shape
use open_zone.Base.{
  ℕ, zero, suc, Bool, true, false, not, ◌&&◌, ◌||◌, Option, none, some, List, [], ◌∷◌, ◌++◌, Text,
  codes, text_eq, eqb, if◌then◌else◌, length, drop, ◌>>=◌, ◌>>◌, guard,
}
use open_zone.Base.Dict.{Dict}
use open_zone.Base.Strings.{trim_space, trim_right, trim_suffix, cut, cut_when, cut_byte}
use open_zone.Base.Attrs.{is_empty, attr_loop}

pub record Msg : Type 0 where
  pub tag : Text
  pub attrs : Dict Text Text
  pub raw : Text

abbrev pub starts_with_byte : ℕ → Text → Bool
starts_with_byte c [] = false
starts_with_byte c (x ∷ s) = eqb x c

abbrev pub is_blank : ℕ → Bool
is_blank c = eqb c b' ' || (eqb c b'\t' || (eqb c b'\r' || eqb c b'\n'))

-- The tag, and what stands behind the first blank.
abbrev pub split_tag : Text → Option (Text × Text) → Text × Text
split_tag head none = (head, [])
split_tag head (some p) = p

unfoldable pub parse_head : Text → Text → Option Msg
parse_head raw head0 = do
  let head1 = trim_space head0
  guard (not (is_empty head1))
  let head = trim_space (trim_suffix b'/' head1)
  guard (not (is_empty head))
  let (tag, behind) = split_tag head (cut_when is_blank head)
  guard (not (is_empty tag))
  let rest = trim_space behind
  some (record { tag = tag; attrs = attr_loop (length rest) rest []; raw = raw })

unfoldable pub parse : Text → Option Msg
parse s = do
  let t = trim_space s
  guard (starts_with_byte b'<' t)
  let raw = trim_right (λ c. eqb c 0) t
  (upto, _) ← cut_byte b'>' raw
  parse_head raw (drop 1 upto)

-- `MakeZText`: the payload without its trailing line ends, and a NUL.
unfoldable pub make_z_text : Text → Text
make_z_text s = trim_right (λ c. eqb c b'\r' || eqb c b'\n') s ++ (0 ∷ [])
