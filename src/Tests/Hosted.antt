-- ===== src/Tests/Hosted.antt =====
-- A client that hosts a game, through the whole server (internal/dp8/engine.go), and the loop of `Run`.
use open_zone.Base.{
  ◌≡◌, ◌⊎◌, inl, inr, refl, false, none, some, [], ◌∷◌, ◌++◌, Text, codes, text_eq, nat_eq,
  same_text, arith, take, subst, some_inj,
}
use open_zone.Base.Attrs.{next_attr, attr_loop}
use open_zone.Base.Dict.{get, put}
use open_zone.Base.Strings.{
  trim_space, trim_right, trim_suffix, cut, cut_when, contains, has_prefix,
}
use open_zone.State.Addresses.{attr, is_private_ip}
use open_zone.State.Items.{scan_self_closing_elements, scan_loop, next_tag, add_tag, parse_attrs}
use open_zone.State.Hosts.{
  HostStore, HostSession, new_host_store, set_observed_remote_ip, apply_host_data, get_or_create,
  apply_items, apply_item, merge,
}
use open_zone.State.Rows.{row_items}
use open_zone.Proto.Xmlish.{Msg, parse, parse_head}
use open_zone.Proto.Engine.{Engine as ProtoEngine}
use open_zone.Proto.Engine.Serve.{new_host_store-IsStore}
use open_zone.State.Hosts.Rids.{IsStore}
use open_zone.Proto.Engine.Handlers.{handle_host_data}
use open_zone.Proto.Engine.Dispatch.{handle}
use open_zone.Dp8.Address.{RemoteSummary, no_remote, looks_like_ipv4}
use open_zone.Dp8.Summaries.{receive}
use open_zone.Dp8.Engine.{
  Event, capacity, handle_event, apply_kind, apply_message, client_created, client_destroyed,
}
use open_zone.Dp8.Engine.Hosted.{Steps-hosted}
use open_zone.Dp8.Engine.Runs.{IsWorld}
use open_zone.Dp8.Engine.Serving.{handle_and_offer, handle_and_offer-queue}
use open_zone.Dp8.Engine.Steps.{World, done}

-- Client 20 has connected from a public address, and publishes a private one.
abbrev remote : RemoteSummary
remote = record { ip = codes "203.0.113.1"; port = codes "2302"; host_len = 0 }

abbrev proto : ProtoEngine
proto = record {
  port = 2300;
  advertise_ip = [];
  adv_port = 2300;
  host = some new_host_store;
  players = none;
}

abbrev world : World
world = record {
  engine = record {
    proto = proto;
    out_q = [];
    pending = [];
    client_remote = (20, remote) ∷ [];
    last_indicate = no_remote;
  };
  sent = [];
}

abbrev packet : Text
packet = codes "<HostData Cx=\"1\"><Item ItemId=\"0\" GName=\"x\" Ip2=\"172.25.96.1\" /></HostData>"

abbrev host_data : Event
host_data = record {
  msg_id = receive;
  dpnid = 20;
  payload = packet;
  flags = 0;
  ts_unix_ms = 0;
  wall = 8;
  now = 8;
  clock = (8, 9);
}

abbrev msg : Msg
msg = record { tag = codes "HostData"; attrs = (codes "Cx", codes "1") ∷ []; raw = packet }

parsed : parse packet ≡ some msg
unfolding parse parse_head attr_loop next_attr trim_space trim_right trim_suffix cut cut_when
    has_prefix put same_text
parsed = refl

abbrev session : HostSession
session = record {
  last_update = 9;
  rid = 1;
  location = [];
  observed_remote_ip = codes "203.0.113.1";
  server = (codes "GName", codes "x") ∷ (codes "Ip2", codes "172.25.96.1") ∷ [];
  players = [];
}

abbrev after : HostStore
after = record { hosts = (20, session) ∷ []; next_rid = 2 }

stored : (handle_event host_data world.engine).proto.host ≡ some after
unfolding handle_event apply_kind apply_message client_created client_destroyed handle
    handle_host_data parse parse_head attr_loop next_attr trim_space trim_right trim_suffix cut
    cut_when has_prefix contains put get same_text apply_host_data set_observed_remote_ip
    get_or_create apply_items apply_item merge scan_self_closing_elements scan_loop next_tag add_tag
    parse_attrs new_host_store
stored = refl

Steps-hosted_example :
    (attr (row_items (codes "1") session) (codes "IpAddr") ≡ codes "203.0.113.1")
    × ((attr (row_items (codes "1") session) (codes "Ip2") ≡ codes "203.0.113.1")
        ⊎ (is_private_ip (attr (row_items (codes "1") session) (codes "Ip2")) ≡ false))
unfolding get looks_like_ipv4 contains cut has_prefix same_text
Steps-hosted_example =
    Steps-hosted world world (done world) remote host_data msg new_host_store after session
      (codes "1") tt (record { clients = (inr refl, tt); last = inl refl }) refl refl refl refl refl
      parsed refl refl stored refl

world-IsWorld : IsWorld world
unfolding new_host_store get
world-IsWorld = record {
  stores = record {
    hosts = λ s e. subst IsStore (some_inj e) new_host_store-IsStore;
    online = λ s e. absurd (cc);
  };
  room = omega arith;
}

handle_and_offer-queue_example :
    (handle_and_offer host_data world).engine.out_q
    ≡ take capacity (world.engine.out_q ++ (handle_event host_data world.engine).pending)
handle_and_offer-queue_example = handle_and_offer-queue host_data world world-IsWorld
