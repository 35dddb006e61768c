-- ===== src/Proto/Engine/Known.antt =====
-- The answers of `Handle` (internal/proto/protocol.go) to the messages that have a handler of their own.
use open_zone.Base.{
  ℕ, ◌≡◌, refl, true, List, [], ◌∷◌, ◌▹◌, every, not, ◌&&◌, Text, codes, text_eq, same_text, All,
}
use open_zone.Base.Dict.{get, put}
use open_zone.State.Time.{Time}
use open_zone.State.Addresses.{attr}
use open_zone.Proto.Clock.{seconds_since_2000_utc, session_id, lobby_id, random_value}
use open_zone.Proto.Markup.{printed, xml_escape_attr}
use open_zone.Base.Attrs.{is_empty}
use open_zone.Base.Numbers.{decimal}
use open_zone.Proto.Xmlish.{Msg}
use open_zone.Proto.Xmlish.Head.{is_plain, IsPlain, IsValue}
use open_zone.Proto.Xmlish.Shape.{IsMsg}
use open_zone.Proto.Engine.{Engine, Outbound, out, attr_or}
use open_zone.Proto.Engine.Cases.{is_known, handle-cases}
use open_zone.Proto.Engine.Handlers.{
  connect_more, Readings, success, cx_of, handle_connect, handle_set_loc, handle_host_data,
  handle_hdr_row,
}
use open_zone.Proto.Engine.Dispatch.{handle}
use open_zone.Proto.Engine.Wire.{
  Answers, Carries, printed-Answers, wrapped-Answers, name, named-AreAttrs, IsValue-literal,
  IsValue-escape, IsValue-decimal, IsValue-hex8,
}
use open_zone.Proto.Engine.Answers.{
  IsValue-attr_or, IsValue-cx, IsValue-zero, row_pg-Answers, page-Answers,
}

module _ (m : Msg) (shape : IsMsg m) where
  -- An answer of two attributes, with more behind them.
  with_cx :
      (tag : Text) (more : List (Text × Text)) (exp : Text)
      → IsPlain tag
      → every (λ (kv : Text × Text). not (is_empty kv.0) && every is_plain kv.0) more ≡ true
      → All (λ (kv : Text × Text). IsValue kv.1) more
      → Carries (cx_of m) ((codes "HR", success) ∷ (codes "Cx", cx_of m) ∷ more)
      → Answers
          (cx_of m)
          (out tag (printed tag ((codes "HR", success) ∷ (codes "Cx", cx_of m) ∷ more)) exp)
  with_cx tag more exp ht hn h carries =
      printed-Answers (cx_of m) tag _ exp ht
        (named-AreAttrs ((codes "HR", success) ∷ (codes "Cx", cx_of m) ∷ more) hn
          (IsValue-literal success refl ▹ IsValue-cx m shape ▹ h))
        carries

  connect-Answers : (now : Time) (p : Engine) → All (Answers (cx_of m)) (handle_connect now m p)
  unfolding handle_connect put get same_text
  connect-Answers now p =
      with_cx (codes "ConnectRes") (connect_more now m) (codes "send")
        (name (codes "ConnectRes") refl) refl
        (IsValue-attr_or m shape (codes "ProtoVer") (codes "3.3")
            (IsValue-literal (codes "3.3") refl)
          ▹ IsValue-hex8 (session_id now)
          ▹ IsValue-hex8 (lobby_id now)
          ▹ IsValue-hex8 (session_id now)
          ▹ IsValue-hex8 (lobby_id now)
          ▹ IsValue-decimal (seconds_since_2000_utc now)
          ▹ IsValue-literal (codes "0x0409") refl
          ▹ IsValue-hex8 (random_value now)
          ▹ IsValue-literal (codes "77E2D9C2-504E-459F-8416-0848130BBE1E") refl
          ▹ tt)
        (refl, refl)
      ▹ with_cx (codes "ConInfoRes")
          ((codes "IpAddr", xml_escape_attr p.advertise_ip)
            ∷ (codes "Port", decimal p.adv_port)
            ∷ [])
          (codes "send") (name (codes "ConInfoRes") refl) refl
          (IsValue-escape p.advertise_ip ▹ IsValue-decimal p.adv_port ▹ tt) (refl, refl)
      ▹ with_cx (codes "ConnectEv") ((codes "Time", decimal (seconds_since_2000_utc now)) ∷ [])
          (codes "send") (name (codes "ConnectEv") refl) refl
          (IsValue-decimal (seconds_since_2000_utc now) ▹ tt) (refl, refl)
      ▹ tt

  set_loc-Answers :
      (clock : Readings) (from : ℕ) (ip : Text) (p : Engine)
      → All (Answers (cx_of m)) (handle_set_loc clock from ip m p).1
  unfolding handle_set_loc put get same_text
  set_loc-Answers clock from ip p = (
    with_cx (codes "SetLocRes")
        ((codes "Flags", xml_escape_attr (attr m.attrs (codes "Flags")))
          ∷ (codes "Location", xml_escape_attr (attr m.attrs (codes "Location")))
          ∷ [])
        (codes "send-host") (name (codes "SetLocRes") refl) refl
        (IsValue-escape (attr m.attrs (codes "Flags"))
          ▹ IsValue-escape (attr m.attrs (codes "Location"))
          ▹ tt)
        (refl, refl),
    tt,
  )

  host_data-Answers :
      (clock : Readings) (from : ℕ) (ip : Text) (p : Engine)
      → All (Answers (cx_of m)) (handle_host_data clock from ip m p).1
  unfolding handle_host_data put get same_text
  host_data-Answers clock from ip p = (
    with_cx (codes "HostDataRes") [] (codes "send-host") (name (codes "HostDataRes") refl) refl tt
        (refl, refl),
    tt,
  )

  hdr_row-Answers : All (Answers (cx_of m)) (handle_hdr_row m)
  unfolding handle_hdr_row put get same_text
  hdr_row-Answers =
      let r =
        (codes "HR", success)
        ∷ (codes "Cx", cx_of m)
        ∷ (codes "Vid", attr_or m.attrs (codes "Vid") (codes "0"))
        ∷ [] in
      (
        wrapped-Answers (cx_of m) (codes "HdrRowRes") r _ (codes "send")
            (name (codes "HdrRowRes") refl)
            (named-AreAttrs r refl (
              IsValue-literal success refl
              ▹ IsValue-cx m shape
              ▹ IsValue-zero m shape (codes "Vid")
              ▹ tt))
            (refl, refl),
        tt,
      )

  -- Every answer to a message of the shape that `Parse` gives, with one of the six known tags,
  -- parses, as it is sent, to a message with the answer's tag, the `Cx` of the request (0x0 if it
  -- has none) and a result `HR`.
  pub handle-Answers :
      (now : Time) (clock : Readings) (from : ℕ) (ip : Text) (p : Engine)
      → is_known m.tag ≡ true
      → All (Answers (cx_of m)) (handle now clock from ip m p).1
  handle-Answers now clock from ip p known =
      handle-cases (λ (x : Engine × List Outbound). All (Answers (cx_of m)) x.1) now clock from ip m
        p (λ e. connect-Answers now p) (λ e. hdr_row-Answers) (λ e. page-Answers m shape p)
        (λ e. row_pg-Answers m shape p) (λ e. host_data-Answers clock from ip p)
        (λ n e. set_loc-Answers clock from ip p) (λ unknown. absurd (cc))
