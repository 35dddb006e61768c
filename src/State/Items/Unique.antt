-- ===== src/State/Items/Unique.antt =====
-- Every element that the scan returns has one entry for each attribute name.
use open_zone.Base.{
  ℕ, zero, suc, List, [], ◌∷◌, Text, text_eq, All, All-append, Option-cases, Bool-cases, inl, inr,
  length, drop,
}
use open_zone.Base.Dict.{Dict, UniqueKeys}
use open_zone.Base.Attrs.Unique.{attr_loop-UniqueKeys}
use open_zone.Base.Strings.{trim_space, trim_suffix, has_prefix, contains}
use open_zone.State.Items.{
  parse_attrs, next_tag, add_attrs, add_tag, scan_loop, scan_self_closing_elements,
}
use open_zone.State.Items.Fuel.{scan_loop-stop, scan_loop-next}

parse_attrs-UniqueKeys : (s : Text) → UniqueKeys (parse_attrs s)
unfolding parse_attrs
parse_attrs-UniqueKeys s =
    attr_loop-UniqueKeys _ (trim_space (trim_suffix b'/' (trim_space s))) [] tt

add_attrs-UniqueKeys :
    (m : Dict Text Text) (out : List (Dict Text Text))
    → UniqueKeys m
    → All UniqueKeys out
    → All UniqueKeys (add_attrs m out)
add_attrs-UniqueKeys [] out u h = h
add_attrs-UniqueKeys (e ∷ m) out u h = All-append UniqueKeys out _ h (u, tt)

add_tag-UniqueKeys :
    (name tag : Text) (out : List (Dict Text Text))
    → All UniqueKeys out
    → All UniqueKeys (add_tag name tag out)
unfolding add_tag
add_tag-UniqueKeys name tag out h = elim (Bool-cases (has_prefix name tag)) [
  | inr other ↦ rw other h
  | inl named ↦ elim (Bool-cases (contains tag (b'/' ∷ []))) [
    | inr open_element ↦ rw (named, open_element) h
    | inl closed ↦
        rw (named, closed)
          (add_attrs-UniqueKeys _ out (parse_attrs-UniqueKeys (drop (length name) tag)) h)
  ]
]

scan_loop-UniqueKeys :
    (f : ℕ) (name s : Text) (out : List (Dict Text Text))
    → All UniqueKeys out
    → All UniqueKeys (scan_loop f name s out)
scan_loop-UniqueKeys zero name s out h = unfold scan_loop in h
scan_loop-UniqueKeys (suc f) name s out h = elim (Option-cases (next_tag name s)) [
  | inl stop ↦ rw (scan_loop-stop (suc f) name s out stop) h
  | inr (q, more) ↦
      rw (scan_loop-next f name s out q more)
        (scan_loop-UniqueKeys f name q.1 (add_tag name q.0 out) (add_tag-UniqueKeys name q.0 out h))
]

pub scan-UniqueKeys :
    (payload name : Text) → All UniqueKeys (scan_self_closing_elements payload name)
unfolding scan_self_closing_elements
scan-UniqueKeys payload name = scan_loop-UniqueKeys (length payload) name payload [] tt
