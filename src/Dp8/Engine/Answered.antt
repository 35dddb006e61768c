-- ===== src/Dp8/Engine/Answered.antt =====
-- From a packet of a client to the answers that wait for it (internal/dp8/engine.go).
use open_zone.Base.{
  ℕ, ◌≤◌, length, ◌≡◌, refl, ap, ◌∙◌, true, false, some, List, ◌++◌, Text, text_eq, nat_eq, arith,
  map, All,
}
use open_zone.Base.Dict.{get}
use open_zone.State.Time.{Time}
use open_zone.Proto.Xmlish.{Msg, parse, starts_with_byte}
use open_zone.Proto.Xmlish.Scan.{is_nil}
use open_zone.Proto.Xmlish.Shape.{parse-IsMsg}
use open_zone.Proto.Engine.{Outbound, Engine as ProtoEngine}
use open_zone.Proto.Engine.Handlers.{
  Readings, cx_of, handle_connect, handle_hdr_row, handle_row_pg, handle_host_data, handle_set_loc,
}
use open_zone.Proto.Engine.Dispatch.{handle, handle_page}
use open_zone.Proto.Engine.Wire.{Answers}
use open_zone.Proto.Engine.Known.{handle-Answers}
use open_zone.Proto.Engine.Cases.{is_known}
use open_zone.Dp8.Summaries.{receive}
use open_zone.Dp8.Engine.{
  Engine, Event, apply_kind, apply_message, handle_event, answer, drops, or_no_remote, out_msg,
}

handle_some :
    (now : Time) (clock : Readings) (from : ℕ) (ip : Text) (m : Msg) (p : ProtoEngine)
    → is_known m.tag ≡ true
    → is_nil (handle now clock from ip m p).1 ≡ false
unfolding handle handle_connect handle_hdr_row handle_page handle_row_pg handle_host_data
    handle_set_loc
handle_some now clock from ip m p known = ground arith

handle_few :
    (now : Time) (clock : Readings) (from : ℕ) (ip : Text) (m : Msg) (p : ProtoEngine)
    → is_known m.tag ≡ true
    → length (handle now clock from ip m p).1 ≤ 3
unfolding handle handle_connect handle_hdr_row handle_page handle_row_pg handle_host_data
    handle_set_loc
handle_few now clock from ip m p known = ground arith

pub apply_kind-receive : (evt : Event) (e : Engine) → evt.msg_id ≡ receive → apply_kind evt e ≡ e
unfolding apply_kind
apply_kind-receive evt e got = ground arith

-- A packet from a client that is not evicted, which begins with `<` and parses to one of the six known
-- messages, is answered: at least one and at most three answers, addressed to the client, are put behind
-- those that wait, and each of them parses to its tag, the `Cx` of the packet and a result.
pub handle_event-answered :
    (evt : Event) (e : Engine) (m : Msg)
    → evt.msg_id ≡ receive
    → starts_with_byte b'<' evt.payload ≡ true
    → drops e.proto.players evt.dpnid ≡ false
    → parse evt.payload ≡ some m
    → is_known m.tag ≡ true
    → (outs : List Outbound) × ((handle_event evt e).pending
        ≡ e.pending ++ map (out_msg evt.dpnid) outs)
      × (is_nil outs ≡ false)
      × (length outs ≤ 3)
      × All (Answers (cx_of m)) outs
unfolding handle_event apply_message
handle_event-answered evt e m got markup online parsed known =
    let ip = (or_no_remote (get e.client_remote evt.dpnid)).ip in
    (
      (handle evt.now evt.clock evt.dpnid ip m e.proto).1,
      ap (λ (x : Engine). (apply_message evt x).pending) (apply_kind-receive evt e got)
          ∙ rw (markup, online) (rw (parsed, answer) refl),
      handle_some evt.now evt.clock evt.dpnid ip m e.proto known,
      handle_few evt.now evt.clock evt.dpnid ip m e.proto known,
      handle-Answers m (parse-IsMsg evt.payload m parsed) evt.now evt.clock evt.dpnid ip e.proto
          known,
    )
