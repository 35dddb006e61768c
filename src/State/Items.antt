-- ===== src/State/Items.antt =====
-- `scanSelfClosingElements` and `parseAttrs` of internal/state/host_store.go: the narrow scanner that
-- finds the `<Item … />` elements of a HostData payload.
-- `parseAttrs` has the same loop as `Parse` of internal/proto/xmlish.go, word for word; it is
-- `attr_loop` here too.
pub mod Fuel
pub mod Unique
use open_zone.Base.{
  ℕ, zero, suc, not, Option, none, some, List, [], ◌∷◌, ◌++◌, Text, text_eq, if◌then◌else◌, length,
  drop, ◌>>=◌,
}
use open_zone.Base.Dict.{Dict}
use open_zone.Base.Strings.{trim_space, trim_suffix, cut, cut_byte, has_prefix, contains}
use open_zone.Base.Attrs.{attr_loop}

unfoldable pub parse_attrs : Text → Dict Text Text
parse_attrs s =
    let rest = trim_space (trim_suffix b'/' (trim_space s)) in attr_loop (length rest) rest []

-- One round of the scan: from the first `<name` on, the text between `<` and the next `>`, and the
-- payload behind that `>`; `none` is either `break`.
unfoldable pub next_tag : Text → Text → Option (Text × Text)
next_tag name payload = do
  (_, behind) ← cut (b'<' ∷ name) payload
  (upto, more) ← cut_byte b'>' ((b'<' ∷ name) ++ behind)
  some (drop 1 upto, more)

-- if len(attrs) > 0 { out = append(out, attrs) }
abbrev pub add_attrs : Dict Text Text → List (Dict Text Text) → List (Dict Text Text)
add_attrs [] out = out
add_attrs (a ∷ m) out = out ++ ((a ∷ m) ∷ [])

-- What one tag adds to the result: nothing unless it begins with the name and holds a slash.
unfoldable pub add_tag : Text → Text → List (Dict Text Text) → List (Dict Text Text)
add_tag name tag out =
    if not (has_prefix name tag)
    then out
    else if not (contains tag (b'/' ∷ []))
    then out
    else add_attrs (parse_attrs (drop (length name) tag)) out

-- for i := 0; i < len(payload); { … }: each round drops the `>` that it found, at least.
unfoldable pub scan_loop : ℕ → Text → Text → List (Dict Text Text) → List (Dict Text Text)
scan_loop zero name payload out = out
scan_loop (suc fuel) name payload out = elim (next_tag name payload) [
  | none ↦ out
  | some (tag, more) ↦ scan_loop fuel name more (add_tag name tag out)
]

unfoldable pub scan_self_closing_elements : Text → Text → List (Dict Text Text)
scan_self_closing_elements payload name = scan_loop (length payload) name payload []
