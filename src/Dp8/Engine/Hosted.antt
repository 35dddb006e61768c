-- ===== src/Dp8/Engine/Hosted.antt =====
-- From the address at which a client connects to the row of the game that it hosts
-- (internal/dp8/engine.go, internal/proto/protocol.go, internal/state/host_store.go).
use open_zone.Base.{
  ℕ, ◌≡◌, refl, sym, ap, ◌∙◌, subst, Bool, true, false, ◌&&◌, ◌||◌, ◌⊎◌, inl, inr, Option, none,
  some, [], ◌∷◌, ◌++◌, Text, codes, text_eq, nat_eq, arith, eqb, same_text, every, some_inj,
}
use open_zone.Base.Attrs.{is_empty}
use open_zone.Dp8.Engine.Answered.{apply_kind-receive}
use open_zone.Base.Dict.{Dict, get, get-put, get-del}
use open_zone.Base.Strings.{trim_space, IsSolid, trim_space-IsSolid}
use open_zone.State.Addresses.{attr, is_private_ip}
use open_zone.State.Hosts.{HostStore, HostSession, set_observed_remote_ip, apply_host_data}
use open_zone.State.Hosts.Calls.{run, perform}
use open_zone.State.Hosts.Observed.{row_items-observed}
use open_zone.State.Rows.{row_items}
use open_zone.Proto.Xmlish.{Msg, parse, starts_with_byte}
use open_zone.Proto.Engine.{Engine as ProtoEngine}
use open_zone.Proto.Engine.Effects.{calls_of, handle-calls}
use open_zone.Dp8.Address.{RemoteSummary, is_ipv4_byte, looks_like_ipv4}
use open_zone.Dp8.Address.Safe.{IsAddress}
use open_zone.Dp8.Summaries.{receive, create_player, destroy_player}
use open_zone.Dp8.Engine.{
  Engine, Event, apply_kind, apply_message, handle_event, client_created, client_destroyed, answer,
  drops, or_no_remote, remote_of_new, sweep,
}
use open_zone.Dp8.Engine.Addresses.{HasAddresses, get-IsAddress, Steps-HasAddresses}
use open_zone.Dp8.Engine.Steps.{World, Step, handled, offered, sends, swept, Steps, done, step}

last_of :
    (p : ℕ → Bool) (c : ℕ) (r : Text)
    → every p (c ∷ r) ≡ true
    → (a : Text) × (d : ℕ) × (c ∷ r ≡ a ++ d ∷ []) × (p d ≡ true)
last_of p c [] h = ([], c, refl, ground arith)
last_of p c (d ∷ r) h =
    let (a, e, same, solid) = last_of p d r (ground arith) in
    (c ∷ a, e, ap (λ (t : Text). c ∷ t) same, solid)

ipv4-IsSolid : (c : ℕ) → is_ipv4_byte c ≡ true → IsSolid c
ipv4-IsSolid c h = ground arith

-- Digits and dots have no blanks around them.
trim_space-IsAddress : (s : Text) → IsAddress s → trim_space s ≡ s
unfolding looks_like_ipv4
trim_space-IsAddress [] h = unfold trim_space in refl
trim_space-IsAddress (c ∷ r) (inl h) = absurd (cc)
trim_space-IsAddress (c ∷ r) (inr h) =
    let solid : every is_ipv4_byte (c ∷ r) ≡ true = ground arith in
    let (a, d, same, last) = last_of is_ipv4_byte c r solid in
    trim_space-IsSolid c r a d (ipv4-IsSolid c (ground arith)) (ipv4-IsSolid d last) same

-- The event neither starts nor ends a session of `d`.
abbrev pub KeepsClient : ℕ → Event → Type 0
KeepsClient d evt =
    (eqb evt.msg_id create_player || eqb evt.msg_id destroy_player) && eqb evt.dpnid d ≡ false

kept-apply_kind :
    (d : ℕ) (evt : Event) (e : Engine)
    → KeepsClient d evt
    → get (apply_kind evt e).client_remote d ≡ get e.client_remote d
unfolding apply_kind client_created client_destroyed
kept-apply_kind d evt e keeps =
    let fresh = get-put e.client_remote evt.dpnid d (remote_of_new evt.payload e.last_indicate) in
    ground (arith, fresh, get-del e.client_remote evt.dpnid d)

kept-answer :
    (evt : Event) (o : Option Msg) (e : Engine) → (answer evt o e).client_remote ≡ e.client_remote
kept-answer evt none e = refl
kept-answer evt (some m) e = refl

kept-apply_message :
    (evt : Event) (e : Engine) → (apply_message evt e).client_remote ≡ e.client_remote
unfolding apply_message
kept-apply_message evt e = ground (arith, kept-answer evt (parse evt.payload) e)

-- No event of the run starts or ends a session of `d`.
abbrev pub KeepsStep : ℕ → (u v : World) → Step u v → Type 0
KeepsStep d u v (handled evt w idle) = KeepsClient d evt
KeepsStep d u v (offered o rest w e) = Unit
KeepsStep d u v (sends o rest w e) = Unit
KeepsStep d u v (swept wall now w) = Unit

abbrev pub KeepsAll : ℕ → (u v : World) → Steps u v → Type 0
KeepsAll d u v (done w) = Unit
KeepsAll d u v (step x y z s r) = KeepsStep d x y s × KeepsAll d y z r

Step-kept :
    (d : ℕ) (u v : World) (s : Step u v)
    → KeepsStep d u v s
    → get v.engine.client_remote d ≡ get u.engine.client_remote d
Step-kept d u v (handled evt w idle) keeps =
    unfold handle_event in
    ap (λ (m : Dict ℕ RemoteSummary). get m d) (kept-apply_message evt (apply_kind evt w.engine))
    ∙ kept-apply_kind d evt w.engine keeps
Step-kept d u v (offered o rest w e) keeps = refl
Step-kept d u v (sends o rest w e) keeps = refl
Step-kept d u v (swept wall now w) keeps = unfold sweep in refl

Steps-kept :
    (d : ℕ) (u v : World) (r : Steps u v)
    → KeepsAll d u v r
    → get v.engine.client_remote d ≡ get u.engine.client_remote d
Steps-kept d u v (done w) keeps = refl
Steps-kept d u v (step x y z s r) keeps = Steps-kept d y z r keeps.1 ∙ Step-kept d x y s keeps.0

-- A packet whose message is served acts on the host store as the calls of that message.
served-host :
    (evt : Event) (e : Engine) (m : Msg) (s : HostStore)
    → evt.msg_id ≡ receive
    → starts_with_byte b'<' evt.payload ≡ true
    → drops e.proto.players evt.dpnid ≡ false
    → parse evt.payload ≡ some m
    → e.proto.host ≡ some s
    → (handle_event evt e).proto.host
      ≡ some
          (run (calls_of evt.clock evt.dpnid (or_no_remote (get e.client_remote evt.dpnid)).ip m) s)
unfolding handle_event apply_message
served-host evt e m s got markup online parsed held =
    let ip = (or_no_remote (get e.client_remote evt.dpnid)).ip in
    ap (λ (x : Engine). (apply_message evt x).proto.host) (apply_kind-receive evt e got)
    ∙ rw (markup, online)
        (rw (parsed, answer)
          (ap (λ (p : ProtoEngine). p.host) (handle-calls evt.clock evt.dpnid ip m e.proto evt.now)
            ∙ rw held refl))

hosted :
    (evt : Event) (e : Engine) (m : Msg) (s t : HostStore)
    → evt.msg_id ≡ receive
    → starts_with_byte b'<' evt.payload ≡ true
    → drops e.proto.players evt.dpnid ≡ false
    → parse evt.payload ≡ some m
    → same_text m.tag (codes "HostData") ≡ true
    → e.proto.host ≡ some s
    → (handle_event evt e).proto.host ≡ some t
    → t
      ≡ apply_host_data evt.clock.1 evt.dpnid m.raw (
          set_observed_remote_ip evt.clock.0 evt.dpnid
            (or_no_remote (get e.client_remote evt.dpnid)).ip
            s)
hosted evt e m s t got markup online parsed hosts held after =
    let made = served-host evt e m s got markup online parsed held in
    some_inj (sym after ∙ made) ∙ rw (hosts, calls_of) (unfold run perform in refl)

-- The server shows a game at the address from which its host connects. If the engine keeps an address for a
-- client, then after any run in which no session of that client starts or ends, and after a HostData packet
-- of the client, unless that removed its session or the client is evicted: the row of the client's game shows
-- this address first, whatever the packet published, and behind it the same address or a public one.
pub Steps-hosted :
    (u v : World) (r : Steps u v) (rs : RemoteSummary) (evt : Event) (m : Msg) (s t : HostStore)
    (h : HostSession) (rid : Text)
    → KeepsAll evt.dpnid u v r
    → HasAddresses u.engine
    → get u.engine.client_remote evt.dpnid ≡ some rs
    → is_empty rs.ip ≡ false
    → evt.msg_id ≡ receive
    → starts_with_byte b'<' evt.payload ≡ true
    → drops v.engine.proto.players evt.dpnid ≡ false
    → parse evt.payload ≡ some m
    → same_text m.tag (codes "HostData") ≡ true
    → v.engine.proto.host ≡ some s
    → (handle_event evt v.engine).proto.host ≡ some t
    → get t.hosts evt.dpnid ≡ some h
    → (attr (row_items rid h) (codes "IpAddr") ≡ rs.ip)
      × ((attr (row_items rid h) (codes "Ip2") ≡ rs.ip)
          ⊎ (is_private_ip (attr (row_items rid h) (codes "Ip2")) ≡ false))
Steps-hosted u v r rs evt m s t h rid keeps safe known some_ip got markup online parsed hosts held
      after left =
    let kept = Steps-kept evt.dpnid u v r keeps ∙ known in
    let ip : (or_no_remote (get v.engine.client_remote evt.dpnid)).ip ≡ rs.ip = rw kept refl in
    let clean : IsAddress rs.ip =
      subst IsAddress ip
        (get-IsAddress v.engine.client_remote evt.dpnid (Steps-HasAddresses u v r safe).clients) in
    let made = hosted evt v.engine m s t got markup online parsed hosts held after in
    row_items-observed evt.clock.0 evt.clock.1 evt.dpnid rs.ip m.raw rid s h some_ip
      (trim_space-IsAddress rs.ip clean)
      (subst
        (λ (x : Text).
          get
            (apply_host_data evt.clock.1 evt.dpnid m.raw
              (set_observed_remote_ip evt.clock.0 evt.dpnid x s)).hosts
            evt.dpnid
          ≡ some h)
        ip (subst (λ (x : HostStore). get x.hosts evt.dpnid ≡ some h) made left))
