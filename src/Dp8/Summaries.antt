-- ===== src/Dp8/Summaries.antt =====
-- internal/dp8/engine.go: what the log says of a message, without the texts that users entered.
pub mod Bounds
mod Fuel
use open_zone.Base.{
  ℕ, zero, suc, ◌+◌, Bool, true, false, not, ◌&&◌, ◌||◌, Option, none, some, List, [], ◌∷◌, ◌++◌,
  Text, codes, text_eq, eqb, ltb, leb, if◌then◌else◌, length, drop, take, every, map, ◌>>=◌,
}
use open_zone.Base.Attrs.{is_empty}
use open_zone.Base.Dict.{Dict, put}
use open_zone.Base.Numbers.{is_digit}
use open_zone.Base.Strings.{trim_space, cut, cut_byte, cut_when, contains}
use open_zone.Proto.Engine.Dispatch.{sort_texts}
use open_zone.Dp8.Address.{up_to}

abbrev pub msg_offset : ℕ
msg_offset = 0xffff0000

abbrev pub connect_complete : ℕ
connect_complete = msg_offset + 0x0005

abbrev pub create_player : ℕ
create_player = msg_offset + 0x0007

abbrev pub destroy_player : ℕ
destroy_player = msg_offset + 0x0009

abbrev pub indicate_connect : ℕ
indicate_connect = msg_offset + 0x000e

abbrev pub receive : ℕ
receive = msg_offset + 0x0011

abbrev pub terminate_session : ℕ
terminate_session = msg_offset + 0x0016

unfoldable pub dp8_msg_name : ℕ → Text
dp8_msg_name id =
    if eqb id connect_complete
    then codes "CONNECT_COMPLETE"
    else if eqb id create_player
    then codes "CREATE_PLAYER"
    else if eqb id destroy_player
    then codes "DESTROY_PLAYER"
    else if eqb id indicate_connect
    then codes "INDICATE_CONNECT"
    else if eqb id receive
    then codes "RECEIVE"
    else if eqb id terminate_session
    then codes "TERMINATE_SESSION"
    else codes "UNKNOWN"

-- The kind of a location, at most 32 bytes of what stands before its `=`, and the location's length.
unfoldable pub summarize_location : Text → Text × ℕ
summarize_location loc =
    if is_empty loc
    then ([], 0)
    else (take 32 (trim_space (up_to loc (cut_byte b'=' loc))), length loc)

pub record HostDataSummary : Type 0 where
  pub item_count : ℕ
  pub has_new : Bool
  pub has_del : Bool
  pub item_ids : List Text

-- strings.Count(s, needle), on fuel: each match drops the needle at least
count_loop : ℕ → Text → Text → ℕ
count_loop zero needle s = 0
count_loop (suc f) needle s = elim (cut needle s) [
  | none ↦ 0
  | some (before, behind) ↦ suc (count_loop f needle behind)
]

unfoldable pub count_text : Text → Text → ℕ
unfolding count_loop
count_text s needle = count_loop (length s) needle s

-- One round of the loop over the ids: the id, and the text behind its closing quote.
unfoldable pub next_id : Text → Option (Text × Text)
next_id s = do (_, behind) ← cut (codes "ItemId=\"") s; cut_byte b'"' behind

-- map[string]struct{}
abbrev pub Seen : Type 0
Seen = Dict Text (Unit {0})

abbrev pub see : Text → Seen → Seen
see id seen = if is_empty id then seen else put seen id tt

unfoldable pub ids_loop : ℕ → Text → Seen → Seen
ids_loop zero s seen = seen
ids_loop (suc f) s seen = elim (next_id s) [
  | none ↦ seen
  | some (id, behind) ↦ ids_loop f behind (see id seen)
]

unfoldable pub summarize_host_data : Text → HostDataSummary
unfolding ids_loop count_text
summarize_host_data raw = record {
  item_count = count_text raw (codes "<Item");
  has_new = contains raw (codes "<New");
  has_del = contains raw (codes "<Del");
  item_ids =
      take 8 (sort_texts (map (λ (e : Text × Unit {0}). e.0) (ids_loop (length raw) raw [])));
}

unfoldable pub sorted_attr_keys : Dict Text Text → List Text
sorted_attr_keys m = sort_texts (map (λ (e : Text × Text). e.0) m)

abbrev pub ends_tag : ℕ → Bool
ends_tag c =
    eqb c b' ' || (eqb c b'\t' || (eqb c b'\r' || (eqb c b'\n' || (eqb c b'>' || eqb c b'/'))))

-- The bytes that a hint may hold.
abbrev pub is_safe : ℕ → Bool
is_safe c =
    (leb b'a' c && leb c b'z')
    || ((leb b'A' c && leb c b'Z') || (is_digit c || (eqb c b'_' || eqb c b'-')))

-- `i` runs from 1 to 64 at most, so a hint has at most 63 bytes.
unfoldable pub safe_tag_hint : Text → Text
safe_tag_hint [] = []
safe_tag_hint (c ∷ payload) =
    let window = take 63 payload in
    let raw = up_to window (cut_when ends_tag window) in
    if not (eqb c b'<') then [] else if every is_safe raw then raw else []
