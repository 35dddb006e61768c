-- ===== src/Proto/Engine/Dispatch.antt =====
-- internal/proto/protocol.go: `handlePage`, the fallback, and the dispatch of `Handle`.
use open_zone.Base.{
  ℕ, Bool, true, false, ◌&&◌, ◌||◌, Option, none, some, List, [], ◌∷◌, ◌++◌, Text, codes, text_eq,
  same_text, eqb, ltb, if◌then◌else◌, length, map,
}
use open_zone.Base.Attrs.{is_empty}
use open_zone.Base.Numbers.{decimal}
use open_zone.Base.Strings.{cut_when}
use open_zone.State.Time.{Time}
use open_zone.State.Addresses.{attr}
use open_zone.State.Hosts.{HostStore, GameRow}
use open_zone.State.Rows.{games_rows}
use open_zone.Proto.Xmlish.{Msg}
use open_zone.Proto.Markup.{printed, wrapped, xml_escape_attr}
use open_zone.Proto.Engine.{Outbound, Engine, out, attr_or}
use open_zone.Proto.Engine.Handlers.{
  Readings, success, cx_of, header_tokens_for_view, row_elements, handle_row_pg, handle_connect,
  handle_set_loc, handle_host_data, handle_hdr_row,
}

-- The attributes of `PageRes`.
abbrev pub page_attrs : Msg → Text → List (Text × Text)
page_attrs m count =
    let vid = attr_or m.attrs (codes "Vid") (codes "0") in
    let page_no = attr_or m.attrs (codes "PageNo") (codes "0") in
    (codes "HR", success)
    ∷ (codes "Cx", cx_of m)
    ∷ (codes "Vid", vid)
    ∷ (codes "ViewId", vid)
    ∷ (codes "PageNo", page_no)
    ∷ (codes "PageNumber", page_no)
    ∷ (codes "VType", codes "0")
    ∷ (codes "ViewType", codes "0")
    ∷ (codes "VIdx", codes "0")
    ∷ (codes "ViewIndex", codes "0")
    ∷ (codes "VTotal", codes "0")
    ∷ (codes "ViewTotal", codes "0")
    ∷ (codes "Count", count)
    ∷ (codes "Num", xml_escape_attr (attr_or m.attrs (codes "Num") (codes "0")))
    ∷ (codes "Str", xml_escape_attr (attr m.attrs (codes "Str")))
    ∷ []

abbrev pub rows_for : Text → Option HostStore → List GameRow
rows_for vid none = []
rows_for vid (some s) = if same_text vid (codes "101") then games_rows 0 s else []

unfoldable pub page_res : Msg → List GameRow → Outbound
page_res m [] =
    out (codes "PageRes") (printed (codes "PageRes") (page_attrs m (codes "0"))) (codes "send")
page_res m (r ∷ rows) =
    out (codes "PageRes")
      (wrapped (codes "PageRes") (page_attrs m (decimal (length (r ∷ rows)))) (
        row_elements (header_tokens_for_view (attr_or m.attrs (codes "Vid") (codes "0")))
          (r ∷ rows)))
      (codes "send-page-rows")

unfoldable pub handle_page : Msg → Engine → List Outbound
unfolding page_res
handle_page m p = page_res m (rows_for (attr_or m.attrs (codes "Vid") (codes "0")) p.host) ∷ []

-- `<` or equal on strings: lexicographic, byte by byte
unfoldable pub text_le : Text → Text → Bool
text_le [] t = true
text_le (x ∷ s) [] = false
text_le (x ∷ s) (y ∷ t) = ltb x y || (eqb x y && text_le s t)

unfoldable pub insert_text : Text → List Text → List Text
insert_text k [] = k ∷ []
insert_text k (x ∷ xs) = let rest = insert_text k xs in if text_le k x then k ∷ x ∷ xs else x ∷ rest

-- `sort.Strings`
unfoldable pub sort_texts : List Text → List Text
unfolding insert_text
sort_texts [] = []
sort_texts (k ∷ ks) = insert_text k (sort_texts ks)

-- `k="v"`
abbrev pub pair_text : Text × Text → Text
pair_text kv = kv.0 ++ (61 ∷ 34 ∷ (kv.1 ++ (34 ∷ [])))

-- strings.Join(parts, " "), with a blank before the first part too
unfoldable pub join_parts : List Text → Text
join_parts [] = []
join_parts (x ∷ xs) = 32 ∷ (x ++ join_parts xs)

-- What `ContainsAny(in.Tag, "<>\"' /\\")` looks for.
abbrev pub is_unsafe : ℕ → Bool
is_unsafe c =
    eqb c b'<'
    || (eqb c b'>' || (eqb c b'"' || (eqb c 39 || (eqb c b' ' || (eqb c b'/' || eqb c b'\\')))))

abbrev pub holds_unsafe : Option (Text × Text) → Bool
holds_unsafe none = false
holds_unsafe (some q) = true

abbrev pub hr_part : Text
hr_part = pair_text (codes "HR", success)

unfoldable pub handle_fallback : Msg → List Outbound
unfolding sort_texts join_parts
handle_fallback m =
    if is_empty m.tag || holds_unsafe (cut_when is_unsafe m.tag)
    then []
    else out (m.tag ++ codes "Res")
        (60
          ∷ ((m.tag ++ codes "Res")
              ++ (join_parts (hr_part ∷ sort_texts (map pair_text m.attrs)) ++ codes " />")))
        (codes "send-fallback")
      ∷ []

-- `Handle`: the engine with its stores afterwards, and the responses.
unfoldable pub handle : Time → Readings → ℕ → Text → Msg → Engine → Engine × List Outbound
handle now clock from remote_ip m p =
    if same_text m.tag (codes "Connect")
    then (p, handle_connect now m p)
    else if same_text m.tag (codes "HdrRow")
    then (p, handle_hdr_row m)
    else if same_text m.tag (codes "Page")
    then (p, handle_page m p)
    else if same_text m.tag (codes "RowPg")
    then (p, handle_row_pg m p)
    else if same_text m.tag (codes "HostData")
    then handle_host_data clock from remote_ip m p
    else if same_text m.tag (codes "SetLoc")
    then handle_set_loc clock from remote_ip m p
    else (p, handle_fallback m)
