-- ===== src/Tests/Messages.antt =====
-- The parser and the handlers (internal/proto) on messages as clients send them.
use open_zone.Base.{
  none, ◌≡◌, refl, some, List, [], ◌∷◌, ◌++◌, Text, codes, text_eq, same_text, All,
}
use open_zone.Base.Attrs.{next_attr, attr_loop}
use open_zone.Base.Dict.{put}
use open_zone.Base.Strings.{trim_space, trim_right, trim_suffix, cut, cut_when}
use open_zone.Base.{All-every}
use open_zone.State.Hosts.{new_host_store}
use open_zone.Proto.Engine.{Engine}
use open_zone.Proto.Engine.Handlers.{cx_of}
use open_zone.Proto.Engine.Dispatch.{handle}
use open_zone.Proto.Engine.Wire.{Answers, IsValue-literal}
use open_zone.Proto.Engine.Known.{handle-Answers}
use open_zone.Proto.Markup.{printed}
use open_zone.Proto.Xmlish.{Msg, parse, parse_head, make_z_text}
use open_zone.Proto.Xmlish.Head.{put_all, is_plain, IsPlain, AreAttrs}
use open_zone.Proto.Xmlish.Shape.{IsMsg, parse-IsMsg}
use open_zone.Proto.Xmlish.RoundTrip.{nuls, parse-printed}

abbrev connect_attrs : List (Text × Text)
connect_attrs = (codes "Cx", codes "0x123") ∷ (codes "ProtoVer", codes "3.3") ∷ []

abbrev connect_raw : Text
connect_raw = codes "<Connect Cx=\"0x123\" ProtoVer=\"3.3\" />"

abbrev connect : Msg
connect = record { tag = codes "Connect"; attrs = connect_attrs; raw = connect_raw }

-- The test `TestParse_TrimsNULAndParsesAttrs` of the repository.
parse-connect : parse (connect_raw ++ (0 ∷ 0 ∷ [])) ≡ some connect
unfolding parse parse_head attr_loop next_attr trim_space trim_right trim_suffix cut cut_when put
    same_text
parse-connect = refl

make_z_text-crlf : make_z_text (codes "<X />\r\n") ≡ codes "<X />" ++ (0 ∷ [])
unfolding make_z_text trim_right
make_z_text-crlf = refl

parse-IsMsg_example : IsMsg connect
parse-IsMsg_example = parse-IsMsg (connect_raw ++ (0 ∷ 0 ∷ [])) connect parse-connect

connect_tag-IsPlain : IsPlain (codes "Connect")
connect_tag-IsPlain = (refl, All-every is_plain (codes "Connect") refl)

connect_attrs-AreAttrs : AreAttrs connect_attrs
connect_attrs-AreAttrs = (
  ((refl, All-every is_plain (codes "Cx") refl), IsValue-literal (codes "0x123") refl),
  (((refl, All-every is_plain (codes "ProtoVer") refl), IsValue-literal (codes "3.3") refl), tt),
)

abbrev fresh_engine : Engine
fresh_engine = record {
  port = 2300;
  advertise_ip = codes "127.0.0.1";
  adv_port = 2300;
  host = some new_host_store;
  players = none;
}

parse-printed_example :
    parse (printed (codes "Connect") connect_attrs ++ nuls 2)
    ≡ some (record {
      tag = codes "Connect";
      attrs = put_all connect_attrs [];
      raw = printed (codes "Connect") connect_attrs;
    })
parse-printed_example =
    parse-printed (codes "Connect") connect_attrs 2 connect_tag-IsPlain connect_attrs-AreAttrs

handle-Answers_example :
    All (Answers (cx_of connect)) (handle 7 (8, 9) 20 (codes "203.0.113.9") connect fresh_engine).1
unfolding same_text
handle-Answers_example =
    handle-Answers connect parse-IsMsg_example 7 (8, 9) 20 (codes "203.0.113.9") fresh_engine refl
