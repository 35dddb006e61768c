-- ===== src/Proto/Engine/Columns.antt =====
-- The `<Row … />` elements of PageRes and RowPgRes (internal/proto/protocol.go), as a client reads them.
use open_zone.Base.{
  ap₂, ◌≡◌, refl, ap, ◌∙◌, Bool, true, false, not, ◌&&◌, List, [], ◌∷◌, ◌▹◌, ◌++◌, Text, codes,
  text_eq, same_text, arith, map, All, every, if◌then◌else◌, Bool-cases, inl, inr,
}
use open_zone.Base.Attrs.{is_empty}
use open_zone.Base.Dict.{Dict, get, put}
use open_zone.Base.Strings.{cut, has_prefix}
use open_zone.State.Addresses.{attr}
use open_zone.State.Hosts.{GameRow}
use open_zone.State.Items.{scan_self_closing_elements}
use open_zone.Proto.Markup.{xml_escape_attr}
use open_zone.Proto.Markup.Escape.{unescape, xml_escape_attr-exact}
use open_zone.Proto.Xmlish.Head.{is_plain, IsPlain, AreAttrs, put_all}
use open_zone.Proto.Xmlish.Scan.{elements, IsElement, is_nil, scan_self_closing_elements-printed}
use open_zone.Proto.Engine.Handlers.{
  header_tokens_for_view, column_value, row_attrs, row_element, row_elements,
}
use open_zone.Proto.Engine.Wire.{name, IsValue-escape}

-- The value that the column of a header is to show: the item of the row, or its row id where the first
-- column has none.
abbrev pub cell : GameRow → List Text → Text → Text
cell r [] h = attr r.items h
cell r (first ∷ hs) h =
    if same_text h first && is_empty (attr r.items h) then r.rid else attr r.items h

abbrev plain_name : Text → Bool
plain_name k = not (is_empty k) && every is_plain k

names : (hs : List Text) → every plain_name hs ≡ true → All IsPlain hs
names [] h = tt
names (k ∷ hs) h = (name k (ground arith), names hs (ground arith))

row_attrs-AreAttrs :
    (first : Bool) (hs : List Text) (r : GameRow) → All IsPlain hs → AreAttrs (row_attrs first hs r)
unfolding row_attrs
row_attrs-AreAttrs first [] r h = tt
row_attrs-AreAttrs first (k ∷ hs) r h =
    ((h.0, IsValue-escape (column_value first r k)), row_attrs-AreAttrs false hs r h.1)

header_tokens_plain : (vid : Text) → every plain_name (header_tokens_for_view vid) ≡ true
unfolding header_tokens_for_view
header_tokens_plain vid = elim (Bool-cases (same_text vid (codes "501"))) [
  | inl players ↦ rw players refl
  | inr games ↦ rw games refl
]

header_tokens-IsPlain : (vid : Text) → All IsPlain (header_tokens_for_view vid)
header_tokens-IsPlain vid = names (header_tokens_for_view vid) (header_tokens_plain vid)

row_attrs_some :
    (vid : Text) (r : GameRow) → is_nil (row_attrs true (header_tokens_for_view vid) r) ≡ false
unfolding header_tokens_for_view row_attrs
row_attrs_some vid r = elim (Bool-cases (same_text vid (codes "501"))) [
  | inl players ↦ rw players refl
  | inr games ↦ rw games refl
]

row_attrs-IsElement :
    (vid : Text) (r : GameRow) → IsElement (row_attrs true (header_tokens_for_view vid) r)
row_attrs-IsElement vid r = (
  row_attrs-AreAttrs true (header_tokens_for_view vid) r (header_tokens-IsPlain vid),
  row_attrs_some vid r,
)

row_elements-elements :
    (hs : List Text) (rows : List GameRow)
    → row_elements hs rows ≡ elements (codes "Row") (map (row_attrs true hs) rows) []
unfolding row_elements
row_elements-elements hs [] = refl
row_elements-elements hs (r ∷ rows) =
    ap (λ (t : Text). row_element hs r ++ t) (row_elements-elements hs rows)

All-IsElement :
    (vid : Text) (rows : List GameRow)
    → All IsElement (map (row_attrs true (header_tokens_for_view vid)) rows)
All-IsElement vid [] = tt
All-IsElement vid (r ∷ rows) = (row_attrs-IsElement vid r, All-IsElement vid rows)

map-map :
    (hs : List Text) (rows : List GameRow)
    → map (λ r. put_all r []) (map (row_attrs true hs) rows)
      ≡ map (λ r. put_all (row_attrs true hs r) []) rows
map-map hs [] = refl
map-map hs (r ∷ rows) = ap (◌∷◌ (put_all (row_attrs true hs r) [])) (map-map hs rows)

-- Scanning the rows that are sent for a view gives one element for each row, in order, with the
-- attributes of that row.
scan-row_elements :
    (vid : Text) (rows : List GameRow)
    → scan_self_closing_elements (row_elements (header_tokens_for_view vid) rows) (codes "Row")
      ≡ map (λ r. put_all (row_attrs true (header_tokens_for_view vid) r) []) rows
scan-row_elements vid rows =
    let hs = header_tokens_for_view vid in
    ap (λ (t : Text). scan_self_closing_elements t (codes "Row")) (row_elements-elements hs rows)
    ∙ scan_self_closing_elements-printed (codes "Row") (map (row_attrs true hs) rows) []
        (name (codes "Row") refl) (All-IsElement vid rows) (unfold cut has_prefix in refl)
    ∙ map-map hs rows

module _ (vid : Text) (r : GameRow) where
  reads :
      (first : Bool) (h : Text)
      → unescape 0 (xml_escape_attr (column_value first r h)) ≡ column_value first r h
  reads first h = (xml_escape_attr-exact (column_value first r h)).1

  later : (h : Text) → unescape 0 (xml_escape_attr (column_value false r h)) ≡ attr r.items h
  later h = reads false h

  columns :
      All
        (λ h.
          unescape 0 (attr (put_all (row_attrs true (header_tokens_for_view vid) r) []) h)
          ≡ cell r (header_tokens_for_view vid) h)
        (header_tokens_for_view vid)
  unfolding header_tokens_for_view row_attrs put get same_text
  columns = elim (Bool-cases (same_text vid (codes "501"))) [
    | inl players ↦ rw players (
        reads true (codes "User")
        ▹ later (codes "PTeam")
        ▹ later (codes "PChar")
        ▹ later (codes "PLev")
        ▹ tt)
    | inr games ↦ rw games (
        reads true (codes "Rid")
        ▹ later (codes "GName")
        ▹ later (codes "GameV")
        ▹ later (codes "Locale")
        ▹ later (codes "IpAddr")
        ▹ later (codes "Ip2")
        ▹ later (codes "SFlags")
        ▹ later (codes "Flags")
        ▹ later (codes "Map")
        ▹ later (codes "World")
        ▹ later (codes "NumP")
        ▹ later (codes "MaxP")
        ▹ later (codes "Difficulty")
        ▹ later (codes "Time")
        ▹ later (codes "TimeL")
        ▹ later (codes "InGame")
        ▹ tt)
  ]

map-All : (f g : Text → Text) (hs : List Text) → All (λ h. f h ≡ g h) hs → map f hs ≡ map g hs
map-All f g [] a = refl
map-All f g (h ∷ hs) a = ap₂ ◌∷◌ a.0 (map-All f g hs a.1)

-- What a client reads in the columns of a row's element: the entities stand for their bytes.
abbrev pub read_columns : List Text → Dict Text Text → List Text
read_columns hs attrs = map (λ h. unescape 0 (attr attrs h)) hs

read_columns-rows :
    (vid : Text) (rows : List GameRow)
    → map
        (read_columns (header_tokens_for_view vid))
        (map (λ r. put_all (row_attrs true (header_tokens_for_view vid) r) []) rows)
      ≡ map (λ r. map (cell r (header_tokens_for_view vid)) (header_tokens_for_view vid)) rows
read_columns-rows vid [] = refl
read_columns-rows vid (r ∷ rows) =
    ap₂ ◌∷◌
      (map-All _ (cell r (header_tokens_for_view vid)) (header_tokens_for_view vid) (columns vid r))
      (read_columns-rows vid rows)

-- A client that scans the rows sent for a view, and reads the view's columns in each with their
-- entities, gets one line of values for each row, in order: the values of the columns of that row,
-- whatever bytes they are.
pub read_columns-row_elements :
    (vid : Text) (rows : List GameRow)
    → map
        (read_columns (header_tokens_for_view vid))
        (scan_self_closing_elements (row_elements (header_tokens_for_view vid) rows) (codes "Row"))
      ≡ map (λ r. map (cell r (header_tokens_for_view vid)) (header_tokens_for_view vid)) rows
read_columns-row_elements vid rows =
    ap (map (read_columns (header_tokens_for_view vid))) (scan-row_elements vid rows)
    ∙ read_columns-rows vid rows
