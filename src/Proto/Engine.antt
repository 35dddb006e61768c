-- ===== src/Proto/Engine.antt =====
-- internal/proto/protocol.go: the protocol engine, which answers one parsed message.
-- The stores are pointers in the source, and absent in some tests: `none` is nil. A handler returns the
-- engine with the stores as it leaves them. Ports are not negative here: `config.Load` refuses others.
pub mod Handlers
pub mod Dispatch
pub mod Wire
pub mod Answers
pub mod Known
pub mod Cases
pub mod Columns
pub mod Effects
pub mod Serve
pub mod Fallback
pub mod Echo
use open_zone.Base.{
  ℕ, Bool, true, false, not, Option, none, some, List, [], ◌∷◌, ◌++◌, Text, codes, text_eq, eqb,
  if◌then◌else◌,
}
use open_zone.Base.Attrs.{is_empty}
use open_zone.Base.Dict.{Dict}
use open_zone.Base.Strings.{trim_space}
use open_zone.State.Addresses.{attr}
use open_zone.State.Hosts.{HostStore}
use open_zone.State.Rows.{visible_games_count}
use open_zone.State.Players.{PlayerStore, count}

pub record Outbound : Type 0 where
  pub tag : Text
  pub payload_xml : Text
  pub tail : Text
  pub exp : Text

pub record EngineConfig : Type 0 where
  pub port : ℕ
  pub advertise_ip : Text
  pub advertise_port : ℕ

pub record Engine : Type 0 where
  pub port : ℕ
  pub advertise_ip : Text
  pub adv_port : ℕ
  pub host : Option HostStore
  pub players : Option PlayerStore

pub record Stats : Type 0 where
  pub players_online : ℕ
  pub games_hosted : ℕ

unfoldable pub new_engine : EngineConfig → Option HostStore → Option PlayerStore → Engine
new_engine cfg host players = record {
  port = cfg.port;
  advertise_ip =
      if is_empty (trim_space cfg.advertise_ip)
      then codes "127.0.0.1"
      else trim_space cfg.advertise_ip;
  adv_port = if eqb cfg.advertise_port 0 then cfg.port else cfg.advertise_port;
  host = host;
  players = players;
}

abbrev games_of : Option HostStore → ℕ
games_of none = 0
games_of (some s) = visible_games_count s

abbrev online_of : Option PlayerStore → ℕ
online_of none = 0
online_of (some s) = count s

unfoldable pub stats : Engine → Stats
stats p = record { players_online = online_of p.players; games_hosted = games_of p.host }

abbrev pub out : Text → Text → Text → Outbound
out tag payload exp = record { tag = tag; payload_xml = payload; tail = []; exp = exp }

-- v := in.Attrs[k]; if v == "" { v = d }
abbrev pub attr_or : Dict Text Text → Text → Text → Text
attr_or attrs k d = if is_empty (attr attrs k) then d else attr attrs k
