-- ===== src/Dp8/Address.antt =====
-- internal/dp8/engine.go: the remote address that a DirectPlay address URL gives away.
-- An index loop over a string is a recursion on what is left of it.
pub mod Safe
use open_zone.Base.{
  ℕ, zero, suc, ◌+◌, Bool, true, false, not, ◌&&◌, ◌||◌, Option, none, some, List, [], ◌∷◌, ◌++◌,
  Text, codes, eqb, ltb, if◌then◌else◌, length, drop, every,
}
use open_zone.Base.Attrs.{is_empty}
use open_zone.Base.Numbers.{is_digit}
use open_zone.Base.Strings.{cut, cut_when, contains}

pub record RemoteSummary : Type 0 where
  pub ip : Text
  pub port : Text
  pub host_len : ℕ

abbrev pub no_remote : RemoteSummary
no_remote = record { ip = []; port = []; host_len = 0 }

-- The bytes that end a value: ContainsAny with `;`, `&` and the blanks.
abbrev pub ends_value : ℕ → Bool
ends_value c =
    eqb c b';' || (eqb c b'&' || (eqb c b' ' || (eqb c b'\t' || (eqb c b'\r' || eqb c b'\n'))))

-- s[:i] for i := strings.IndexAny(s, …), or s itself if i < 0
abbrev pub up_to : Text → Option (Text × Text) → Text
up_to s none = s
up_to s (some q) = q.0

abbrev value_behind : Option (Text × Text) → Text
value_behind none = []
value_behind (some q) = up_to q.1 (cut_when ends_value q.1)

unfoldable pub find_dp8_url_kv : Text → Text → Text
find_dp8_url_kv url key = value_behind (cut (key ++ codes "=") url)

abbrev pub is_ipv4_byte : ℕ → Bool
is_ipv4_byte c = is_digit c || eqb c b'.'

unfoldable pub looks_like_ipv4 : Text → Bool
looks_like_ipv4 s = contains s (codes ".") && every is_ipv4_byte s

-- The longest beginning whose bytes pass a test, and the rest.
unfoldable pub span : (ℕ → Bool) → Text → Text × Text
span p [] = ([], [])
span p (c ∷ s) = let r = span p s in if p c then (c ∷ r.0, r.1) else ([], c ∷ s)

abbrev pub count_dots : Text → ℕ
count_dots [] = 0
count_dots (c ∷ s) = (if eqb c b'.' then 1 else 0) + count_dots s

-- The digits behind a `:` that follows the address.
abbrev pub port_of : Text → Text
port_of [] = []
port_of (c ∷ s) = if eqb c b':' then (span is_digit s).0 else []

-- for i := 0; i < len(s); i++ { … }
unfoldable pub find_loop : ℕ → Text → Text × Text
unfolding span looks_like_ipv4
find_loop zero s = ([], [])
find_loop (suc f) [] = ([], [])
find_loop (suc f) (c ∷ s) =
    let (cand, rest) = span is_ipv4_byte (c ∷ s) in
    elim (is_digit c) [
      | false ↦ find_loop f s
      | true ↦ elim (ltb (count_dots cand) 3 || not (looks_like_ipv4 cand)) [
        | true ↦ find_loop f (drop 1 rest)
        | false ↦ (cand, port_of rest)
      ]
    ]

unfoldable pub find_ipv4_and_port : Text → Text × Text
unfolding find_loop
find_ipv4_and_port s = find_loop (length s) s

-- if ip, port := findIPv4AndPort(url); ip != "" { … }
abbrev with_found : Text × Text → RemoteSummary → RemoteSummary
with_found found out =
    if is_empty found.0
    then out
    else record out { ip = found.0; port = if is_empty out.port then found.1 else out.port }

unfoldable pub parse_remote_from_dp8_url : Text → RemoteSummary
unfolding find_dp8_url_kv looks_like_ipv4
parse_remote_from_dp8_url url =
    let host = find_dp8_url_kv url (codes "hostname") in
    let literal = not (is_empty host) && looks_like_ipv4 host in
    let out : RemoteSummary = record {
      ip = if literal then host else [];
      port = find_dp8_url_kv url (codes "port");
      host_len = if literal then 0 else length host;
    } in
    if is_empty out.ip then with_found (find_ipv4_and_port url) out else out
