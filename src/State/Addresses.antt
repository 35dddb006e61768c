-- ===== src/State/Addresses.antt =====
-- internal/state/host_store.go: the addresses that a browse row shows.
pub mod Browse
use open_zone.Base.{
  ℕ, Bool, true, false, not, ◌&&◌, ◌||◌, Option, none, some, List, [], ◌∷◌, ◌++◌, Text, codes,
  text_eq, same_text, eqb, if◌then◌else◌,
}
use open_zone.Base.Dict.{Dict, get}
use open_zone.Base.Attrs.{is_empty}
use open_zone.Base.Strings.{trim_space}
use open_zone.Base.ParseIp.{parse_ip, is_loopback, is_private}

-- m[k] of a map of strings: the empty string where the key is missing.
abbrev pub or_empty : Option Text → Text
or_empty none = []
or_empty (some v) = v

abbrev pub attr : Dict Text Text → Text → Text
attr m k = or_empty (get m k)

abbrev is_separator : ℕ → Bool
is_separator c = eqb c b',' || (eqb c b' ' || (eqb c b'\t' || (eqb c b'\r' || eqb c b'\n')))

abbrev add_field : Text → List Text → List Text
add_field [] out = out
add_field (c ∷ word) out = (c ∷ word) ∷ out

-- strings.FieldsFunc(s, is_separator); `word` is the field read so far
unfoldable pub fields_func : Text → Text → List Text
fields_func word [] = add_field word []
fields_func word (c ∷ s) =
    let ended = add_field word (fields_func [] s) in
    let longer = fields_func (word ++ (c ∷ [])) s in if is_separator c then ended else longer

-- The first entry that is neither empty nor the primary address; the primary one if there is none.
unfoldable pub first_other : Text → List Text → Text
first_other primary [] = primary
first_other primary (ip ∷ ips) =
    let later = first_other primary ips in
    if not (is_empty ip) && not (same_text ip primary) then ip else later

abbrev pub primary_secondary : List Text → Text × Text
primary_secondary [] = ([], [])
primary_secondary (ip ∷ ips) = (ip, first_other ip ips)

unfoldable pub parse_host_ip_list : Text → Text × Text
unfolding fields_func first_other
parse_host_ip_list raw =
    let trimmed = trim_space raw in
    if is_empty trimmed then ([], []) else primary_secondary (fields_func [] trimmed)

-- The secondary address beside an explicit `IpAddr`.
abbrev pub secondary_hint : Text → Text → Text → Text
secondary_hint ip_addr p s =
    if not (is_empty s) && not (same_text s ip_addr)
    then s
    else if not (is_empty p) && not (same_text p ip_addr)
    then p
    else ip_addr

-- The switch of `hostAdvertisedIPs`, with `raw2` the trimmed `Ip2` and `(p, s)` its list.
unfoldable pub advertised : Text → Text → Text → Text → Text × Text
advertised ip_addr raw2 p s =
    if is_empty raw2 && is_empty ip_addr
    then ([], [])
    else if is_empty ip_addr && not (is_empty p)
    then (p, s)
    else if not (is_empty ip_addr) && not (is_empty raw2)
    then (ip_addr, secondary_hint ip_addr p s)
    else if not (is_empty ip_addr)
    then (ip_addr, ip_addr)
    else (ip_addr, [])

unfoldable pub host_advertised_ips : Dict Text Text → Text × Text
unfolding advertised parse_host_ip_list
host_advertised_ips server =
    let ip_addr = trim_space (attr server (codes "IpAddr")) in
    let raw2 = trim_space (attr server (codes "Ip2")) in
    let (p, s) = parse_host_ip_list raw2 in advertised ip_addr raw2 p s

abbrev private_or_none : Option (List ℕ) → Bool
private_or_none none = true
private_or_none (some ip) = is_loopback ip || is_private ip

-- An address that does not parse counts as private.
unfoldable pub is_private_ip : Text → Bool
is_private_ip s = private_or_none (parse_ip (trim_space s))

-- The secondary address beside an observed one: an advertised address, if it is public.
unfoldable pub public_secondary : Text → Text → Text → Text
public_secondary ip_addr adv1 adv2 =
    if not (is_empty adv1) && (not (same_text adv1 ip_addr) && not (is_private_ip adv1))
    then adv1
    else if not (is_empty adv2) && (not (same_text adv2 ip_addr) && not (is_private_ip adv2))
    then adv2
    else ip_addr

-- `hostBrowseIPs`, given the host's observed address and its server item.
unfoldable pub host_browse_ips : Text → Dict Text Text → Text × Text
unfolding public_secondary host_advertised_ips
host_browse_ips observed server =
    let (adv1, adv2) = host_advertised_ips server in
    if not (is_empty (trim_space observed))
    then (observed, public_secondary observed adv1 adv2)
    else (adv1, adv2)
