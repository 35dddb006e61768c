-- ===== src/State/Addresses/Browse.antt =====
-- Which addresses a browse row can show.
use open_zone.Base.{◌≡◌, ◌⊎◌, false, Text, text_eq, arith}
use open_zone.Base.Dict.{Dict}
use open_zone.Base.Attrs.{is_empty}
use open_zone.Base.Strings.{trim_space}
use open_zone.State.Addresses.{is_private_ip, public_secondary, host_browse_ips}

pub host_browse_ips-public :
    (observed : Text) (server : Dict Text Text)
    → is_empty (trim_space observed) ≡ false
    → ((host_browse_ips observed server).0 ≡ observed)
      × (((host_browse_ips observed server).1 ≡ observed)
          ⊎ (is_private_ip (host_browse_ips observed server).1 ≡ false))
unfolding host_browse_ips public_secondary
host_browse_ips-public observed server h = ground arith
