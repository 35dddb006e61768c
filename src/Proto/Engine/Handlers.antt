-- ===== src/Proto/Engine/Handlers.antt =====
-- internal/proto/protocol.go: the handlers, one for each tag, and the dispatch.
use open_zone.Base.{
  ℕ, ◌+◌, Bool, true, false, ◌&&◌, Option, none, some, List, [], ◌∷◌, ◌++◌, Text, codes, text_eq,
  same_text, if◌then◌else◌,
}
use open_zone.Base.Attrs.{is_empty}
use open_zone.Base.Numbers.{decimal, hex8}
use open_zone.Base.Strings.{trim_space}
use open_zone.State.Time.{Time}
use open_zone.State.Addresses.{attr}
use open_zone.State.Hosts.{HostStore, GameRow, set_loc, set_observed_remote_ip, apply_host_data}
use open_zone.State.Rows.{row_by_rid}
use open_zone.Proto.Xmlish.{Msg}
use open_zone.Proto.Markup.{printed, wrapped, xml_escape_attr}
use open_zone.Proto.Clock.{seconds_since_2000_utc, session_id, lobby_id, random_value}
use open_zone.Proto.Engine.{Outbound, Engine, out, attr_or}

abbrev pub success : Text
success = codes "0x00000000"

abbrev pub failure : Text
failure = codes "0x80004005"

-- `headerTokensForView`
unfoldable pub header_tokens_for_view : Text → List Text
header_tokens_for_view vid =
    if same_text vid (codes "501")
    then codes "User" ∷ codes "PTeam" ∷ codes "PChar" ∷ codes "PLev" ∷ []
    else codes "Rid"
      ∷ codes "GName"
      ∷ codes "GameV"
      ∷ codes "Locale"
      ∷ codes "IpAddr"
      ∷ codes "Ip2"
      ∷ codes "SFlags"
      ∷ codes "Flags"
      ∷ codes "Map"
      ∷ codes "World"
      ∷ codes "NumP"
      ∷ codes "MaxP"
      ∷ codes "Difficulty"
      ∷ codes "Time"
      ∷ codes "TimeL"
      ∷ codes "InGame"
      ∷ []

-- The value under the first header falls back to the row id.
abbrev pub column_value : Bool → GameRow → Text → Text
column_value first r h = if first && is_empty (attr r.items h) then r.rid else attr r.items h

-- The attributes of one `<Row … />`, in the order of the headers; the flag is `i == 0`.
unfoldable pub row_attrs : Bool → List Text → GameRow → List (Text × Text)
row_attrs first [] r = []
row_attrs first (h ∷ hs) r = (h, xml_escape_attr (column_value first r h)) ∷ row_attrs false hs r

abbrev pub row_element : List Text → GameRow → Text
row_element headers r = printed (codes "Row") (row_attrs true headers r)

unfoldable pub row_elements : List Text → List GameRow → Text
row_elements headers [] = []
row_elements headers (r ∷ rows) = row_element headers r ++ row_elements headers rows

abbrev pub cx_of : Msg → Text
cx_of m = attr_or m.attrs (codes "Cx") (codes "0x0")

-- The attributes of `RowPgRes`.
abbrev pub row_pg_attrs : Msg → Text → Text → List (Text × Text)
row_pg_attrs m hr n =
    (codes "HR", hr)
    ∷ (codes "Cx", cx_of m)
    ∷ (codes "Vid", attr_or m.attrs (codes "Vid") (codes "0"))
    ∷ (codes "Rid", attr_or m.attrs (codes "Rid") (codes "0"))
    ∷ (codes "Num", xml_escape_attr (attr_or m.attrs (codes "Num") (codes "0")))
    ∷ (codes "Str", xml_escape_attr (attr m.attrs (codes "Str")))
    ∷ (codes "Count", n)
    ∷ []

unfoldable pub row_pg_found : Msg → Option GameRow → Outbound
row_pg_found m none =
    out (codes "RowPgRes") (printed (codes "RowPgRes") (row_pg_attrs m success (codes "0")))
      (codes "send-rowpg-miss")
row_pg_found m (some row) =
    out (codes "RowPgRes")
      (wrapped (codes "RowPgRes") (row_pg_attrs m success (codes "1"))
        (row_element (header_tokens_for_view (attr_or m.attrs (codes "Vid") (codes "0"))) row))
      (codes "send-rowpg-hit")

unfoldable pub row_pg_host : Msg → Option HostStore → Outbound
row_pg_host m none =
    out (codes "RowPgRes") (printed (codes "RowPgRes") (row_pg_attrs m failure (codes "0")))
      (codes "send-safe-fail")
row_pg_host m (some s) = row_pg_found m (row_by_rid (attr_or m.attrs (codes "Rid") (codes "0")) s)

unfoldable pub handle_row_pg : Msg → Engine → List Outbound
unfolding row_pg_host row_pg_found header_tokens_for_view row_attrs
handle_row_pg m p = row_pg_host m p.host ∷ []

-- What `ConnectRes` carries behind the result and the `Cx`.
abbrev pub connect_more : Time → Msg → List (Text × Text)
connect_more now m =
    (codes "ProtoVer", attr_or m.attrs (codes "ProtoVer") (codes "3.3"))
    ∷ (codes "SIId", codes "0x" ++ hex8 (session_id now))
    ∷ (codes "LId", codes "0x" ++ hex8 (lobby_id now))
    ∷ (codes "ConSId", codes "0x" ++ hex8 (session_id now))
    ∷ (codes "ConLId", codes "0x" ++ hex8 (lobby_id now))
    ∷ (codes "Time", decimal (seconds_since_2000_utc now))
    ∷ (codes "Locale", codes "0x0409")
    ∷ (codes "Random", codes "0x" ++ hex8 (random_value now))
    ∷ (codes "AppGuid", codes "77E2D9C2-504E-459F-8416-0848130BBE1E")
    ∷ []

unfoldable pub handle_connect : Time → Msg → Engine → List Outbound
handle_connect now m p =
    let cx = cx_of m in
    let t2000 = decimal (seconds_since_2000_utc now) in
    out (codes "ConnectRes")
      (printed (codes "ConnectRes") ((codes "HR", success) ∷ (codes "Cx", cx) ∷ connect_more now m))
      (codes "send")
    ∷ out (codes "ConInfoRes")
        (printed (codes "ConInfoRes") (
          (codes "HR", success)
          ∷ (codes "Cx", cx)
          ∷ (codes "IpAddr", xml_escape_attr p.advertise_ip)
          ∷ (codes "Port", decimal p.adv_port)
          ∷ []))
        (codes "send")
    ∷ out (codes "ConnectEv")
        (printed (codes "ConnectEv")
          ((codes "HR", success) ∷ (codes "Cx", cx) ∷ (codes "Time", t2000) ∷ []))
        (codes "send")
    ∷ []

-- What `time.Now()` gives inside `SetObservedRemoteIP`, and then inside `SetLoc` or `ApplyHostData`.
abbrev pub Readings : Type 0
Readings = Time × Time

-- if strings.TrimSpace(remoteIP) != "" { p.host.SetObservedRemoteIP(…) }
abbrev pub observe : Time → ℕ → Text → HostStore → HostStore
observe now from remote_ip s =
    if is_empty (trim_space remote_ip) then s else set_observed_remote_ip now from remote_ip s

abbrev pub on_host : (HostStore → HostStore) → Engine → Engine
on_host f p = record p { host = elim p.host [ none ↦ none | some s ↦ some (f s) ] }

unfoldable pub handle_set_loc : Readings → ℕ → Text → Msg → Engine → Engine × List Outbound
handle_set_loc clock from remote_ip m p = (
  on_host
      (λ s.
        set_loc clock.1 from (attr m.attrs (codes "Location")) (observe clock.0 from remote_ip s))
      p,
  out (codes "SetLocRes")
        (printed (codes "SetLocRes") (
          (codes "HR", success)
          ∷ (codes "Cx", cx_of m)
          ∷ (codes "Flags", xml_escape_attr (attr m.attrs (codes "Flags")))
          ∷ (codes "Location", xml_escape_attr (attr m.attrs (codes "Location")))
          ∷ []))
        (codes "send-host")
      ∷ [],
)

unfoldable pub handle_host_data : Readings → ℕ → Text → Msg → Engine → Engine × List Outbound
handle_host_data clock from remote_ip m p = (
  on_host (λ s. apply_host_data clock.1 from m.raw (observe clock.0 from remote_ip s)) p,
  out (codes "HostDataRes")
        (printed (codes "HostDataRes") ((codes "HR", success) ∷ (codes "Cx", cx_of m) ∷ []))
        (codes "send-host")
      ∷ [],
)

-- ` H0="Rid" H1="GName" …` from index `i` on
unfoldable pub header_attrs : ℕ → List Text → List (Text × Text)
header_attrs i [] = []
header_attrs i (h ∷ hs) = (codes "H" ++ decimal i, xml_escape_attr h) ∷ header_attrs (i + 1) hs

unfoldable pub handle_hdr_row : Msg → List Outbound
unfolding header_tokens_for_view header_attrs
handle_hdr_row m =
    let vid = attr_or m.attrs (codes "Vid") (codes "0") in
    out (codes "HdrRowRes")
      (wrapped (codes "HdrRowRes")
        ((codes "HR", success) ∷ (codes "Cx", cx_of m) ∷ (codes "Vid", vid) ∷ [])
        (printed (codes "Hdrs") (header_attrs 0 (header_tokens_for_view vid))))
      (codes "send")
    ∷ []
