-- ===== src/Dp8/Lifecycle/Safe.antt =====
-- The structured log shows no host name in place of an address (internal/dp8/engine.go).
use open_zone.Base.{
  ℕ, ◌≡◌, refl, Bool, true, not, ◌||◌, inl, inr, List, [], ◌∷◌, ◌++◌, codes, same_text, every,
  arith, Bool-cases, Option, none, some, eqb, text_eq, nat_eq,
}
use open_zone.Base.Attrs.{is_empty}
use open_zone.Proto.Xmlish.{Msg, parse, starts_with_byte}
use open_zone.Proto.Engine.{Outbound}
use open_zone.Dp8.Address.{RemoteSummary, looks_like_ipv4}
use open_zone.Dp8.Address.Safe.{IsAddress}
use open_zone.Dp8.Engine.{Engine, Event, apply_kind, drops, remote_of_new}
use open_zone.Dp8.Summaries.{create_player, destroy_player}
use open_zone.Dp8.Engine.Steps.{World, Steps}
use open_zone.Dp8.Engine.Addresses.{
  HasAddresses, get-IsAddress, remote_of_new-IsAddress, apply_kind-HasAddresses, Steps-HasAddresses,
}
use open_zone.Dp8.Lifecycle.{
  Attr, Entry, text, int, flag, remote_attrs, remote_for, kind_entries, connected_entry,
  disconnected_entry, disconnected_entries, not_removed,
}
use open_zone.Dp8.Lifecycle.Messages.{
  message_entries, answer_entries, parsed_entries, payload_entries, event_entries,
}

-- An attribute `remote_ip` is empty, or digits and dots with a dot.
abbrev pub hides_host : Attr → Bool
hides_host (k, text t) = not (same_text k (codes "remote_ip")) || (is_empty t || looks_like_ipv4 t)
hides_host (k, int n) = true
hides_host (k, flag b) = true

abbrev pub hides_hosts : Entry → Bool
hides_hosts e = every hides_host e.attrs

every-append :
    {A : Type 0} (p : A → Bool) (xs ys : List A)
    → every p xs ≡ true
    → every p ys ≡ true
    → every p (xs ++ ys) ≡ true
every-append p [] ys h k = k
every-append p (x ∷ xs) ys h k = ground (arith, every-append p xs ys)

remote_attrs-hides :
    (rs : RemoteSummary) → IsAddress rs.ip → every hides_host (remote_attrs rs) ≡ true
unfolding remote_attrs same_text
remote_attrs-hides rs h = ground arith

message_entries-hide :
    (d : ℕ) (m : Msg) (rs : RemoteSummary)
    → every hides_host (remote_attrs rs) ≡ true
    → every hides_hosts (message_entries d m rs) ≡ true
unfolding message_entries same_text
message_entries-hide d m rs h = elim (Bool-cases (same_text m.tag (codes "Connect"))) [
  | inl e ↦ rw e (ground (arith, h))
  | inr e ↦ rw e (elim (Bool-cases (same_text m.tag (codes "HostData"))) [
    | inl e ↦ rw e (ground (arith, h))
    | inr e ↦ rw e (elim (Bool-cases (same_text m.tag (codes "SetLoc"))) [
      | inl e ↦ rw e (ground (arith, h))
      | inr e ↦ rw e (elim (Bool-cases (same_text m.tag (codes "HdrRow"))) [
        | inl e ↦ rw e (ground (arith, h))
        | inr e ↦ rw e (elim (Bool-cases (same_text m.tag (codes "Page"))) [
          | inl e ↦ rw e (ground (arith, h))
          | inr e ↦ rw e (elim (Bool-cases (same_text m.tag (codes "RowPg"))) [
            | inl e ↦ rw e (ground (arith, h))
            | inr e ↦ rw e (ground (arith, h))
          ])
        ])
      ])
    ])
  ])
]

answer_entries-hide :
    (d : ℕ) (m : Msg) (rs : RemoteSummary) (outs : List Outbound)
    → every hides_host (remote_attrs rs) ≡ true
    → every hides_hosts (answer_entries d m rs outs) ≡ true
unfolding answer_entries same_text
answer_entries-hide d m rs [] h = refl
answer_entries-hide d m rs (o ∷ outs) h =
    let rest = answer_entries-hide d m rs outs h in
    elim (Bool-cases (same_text o.exp (codes "send-fallback"))) [
      | inl e ↦ rw e (rw h rest)
      | inr e ↦ rw e (elim (Bool-cases (same_text o.exp (codes "send-rowpg-miss"))) [
        | inl e ↦ rw e (rw h rest)
        | inr e ↦ rw e rest
      ])
    ]

one-hides : (x : Entry) → hides_hosts x ≡ true → every hides_hosts (x ∷ []) ≡ true
one-hides x h = rw h refl

disconnected_entries-hide :
    (evt : Event) (e : Engine)
    → every hides_host (remote_attrs (remote_for e evt.dpnid)) ≡ true
    → every hides_hosts (disconnected_entries evt e) ≡ true
unfolding same_text
disconnected_entries-hide evt e h = elim (Bool-cases (not_removed e.proto.players evt.dpnid)) [
  | inl absent ↦ rw absent (one-hides (disconnected_entry evt e) h)
  | inr found ↦ rw found (one-hides (disconnected_entry evt e) h)
]

kind_entries-hide :
    (evt : Event) (e : Engine) → HasAddresses e → every hides_hosts (kind_entries evt e) ≡ true
unfolding kind_entries same_text
kind_entries-hide evt e h =
    let fresh =
      remote_attrs-hides (remote_of_new evt.payload e.last_indicate)
        (remote_of_new-IsAddress evt.payload e.last_indicate h.last) in
    let kept =
      remote_attrs-hides (remote_for e evt.dpnid)
        (get-IsAddress e.client_remote evt.dpnid h.clients) in
    elim (Bool-cases (eqb evt.msg_id create_player)) [
      | inl created ↦ rw created (one-hides (connected_entry evt e) fresh)
      | inr other ↦ rw other (elim (Bool-cases (eqb evt.msg_id destroy_player)) [
        | inl destroyed ↦ rw destroyed (disconnected_entries-hide evt e kept)
        | inr other ↦ rw other (ground arith)
      ])
    ]

parsed_entries-hide :
    (evt : Event) (o : Option Msg) (e : Engine)
    → HasAddresses e
    → every hides_hosts (parsed_entries evt o e) ≡ true
parsed_entries-hide evt none e h = unfold same_text in refl
parsed_entries-hide evt (some m) e h =
    let rs = remote_for e evt.dpnid in
    let kept = remote_attrs-hides rs (get-IsAddress e.client_remote evt.dpnid h.clients) in
    every-append hides_hosts (message_entries evt.dpnid m rs) _
      (message_entries-hide evt.dpnid m rs kept) (answer_entries-hide evt.dpnid m rs _ kept)

payload_entries-hide :
    (evt : Event) (e : Engine) → HasAddresses e → every hides_hosts (payload_entries evt e) ≡ true
unfolding payload_entries
payload_entries-hide evt e h = elim (Bool-cases (starts_with_byte b'<' evt.payload)) [
  | inr other ↦ rw other refl
  | inl markup ↦ rw markup (elim (Bool-cases (drops e.proto.players evt.dpnid)) [
    | inl dropped ↦ rw dropped (unfold same_text in refl)
    | inr served ↦ rw served (parsed_entries-hide evt (parse evt.payload) e h)
  ])
]

-- From a state in which the engine keeps no address but digits and dots with a dot among them, or nothing,
-- the log of any later event shows nothing else as a client's address: a host name that a client gives
-- away is never logged under `remote_ip`.
pub event_entries-hide :
    (u v : World) (evt : Event)
    → Steps u v
    → HasAddresses u.engine
    → every hides_hosts (event_entries evt v.engine) ≡ true
unfolding event_entries
event_entries-hide u v evt r h =
    let kept = Steps-HasAddresses u v r h in
    every-append hides_hosts (kind_entries evt v.engine) _ (kind_entries-hide evt v.engine kept) (
      payload_entries-hide evt (apply_kind evt v.engine)
        (apply_kind-HasAddresses evt v.engine kept))
