-- ===== src/State/Hosts/Observed.antt =====
-- The address that the server sees is the one that the games list shows (internal/state/host_store.go).
use open_zone.Base.{
  ℕ, same_text, if◌then◌else◌, ◌≡◌, refl, sym, ap, ◌∙◌, false, Option, none, some, List, [], ◌∷◌,
  Text, codes, text_eq, nat_eq, arith, eqb, eqb_iff, ◌⊎◌, length, some_inj, Bool-cases, inl, inr,
}
use open_zone.Base.Attrs.{is_empty}
use open_zone.Base.Strings.{trim_space}
use open_zone.Base.Dict.{Dict, get, get-put_self, get-del}
use open_zone.State.Time.{Time}
use open_zone.State.Addresses.{attr, host_browse_ips, is_private_ip}
use open_zone.State.Addresses.Browse.{host_browse_ips-public}
use open_zone.State.Items.{scan_self_closing_elements}
use open_zone.State.Hosts.{
  HostSession, HostStore, get_or_create, found_or_created, set_observed_remote_ip, set_observed,
  Applying, delete_item, delete_by_num, apply_item, apply_items, apply_found, apply_host_data,
}
use open_zone.State.Hosts.Payloads.{starting}
use open_zone.State.Rows.{row_items}
use open_zone.State.Rows.Columns.{row_items-exact}

delete_by_num-observed :
    (o : Option Text) (attrs : Dict Text Text) (a : Applying)
    → (delete_by_num o attrs a).session.observed_remote_ip ≡ a.session.observed_remote_ip
unfolding delete_item
delete_by_num-observed none attrs a = refl
delete_by_num-observed (some num) attrs a = ground arith

apply_item-observed :
    (attrs : Dict Text Text) (a : Applying)
    → (apply_item attrs a).session.observed_remote_ip ≡ a.session.observed_remote_ip
unfolding apply_item
apply_item-observed attrs a =
    ground (arith, delete_by_num-observed (get attrs (codes "Num")) attrs a)

apply_items-observed :
    (items : List (Dict Text Text)) (a : Applying)
    → (apply_items items a).session.observed_remote_ip ≡ a.session.observed_remote_ip
unfolding apply_items
apply_items-observed [] a = refl
apply_items-observed (attrs ∷ items) a =
    apply_items-observed items (apply_item attrs a) ∙ apply_item-observed attrs a

-- The store after the address was recorded holds it, and a further call finds that session.
module _ (now : Time) (from : ℕ) (ip : Text) (s : HostStore)
    (some_ip : is_empty (trim_space ip) ≡ false) where
  seen : HostStore
  seen = set_observed_remote_ip now from ip s

  seen_session : HostSession
  seen_session = record ((get_or_create from s).1) {
    observed_remote_ip = trim_space ip;
    last_update = now;
  }

  get-seen : get seen.hosts from ≡ some seen_session
  unfolding seen seen_session set_observed_remote_ip set_observed
  get-seen = rw some_ip (get-put_self (get_or_create from s).0.hosts from _)

  get_or_create-seen : get_or_create from seen ≡ (seen, seen_session)
  unfolding get_or_create
  get_or_create-seen = rw (get-seen, found_or_created) refl

  -- A session that is left after a payload still has the recorded address.
  observed-apply :
      (later : Time) (payload : Text) (h : HostSession)
      → get (apply_host_data later from payload seen).hosts from ≡ some h
      → h.observed_remote_ip ≡ trim_space ip
  unfolding apply_host_data apply_found seen_session
  observed-apply later payload h =
      let items = scan_self_closing_elements payload (codes "Item") in
      let a = starting later seen_session in
      let done = apply_items items a in
      elim (Bool-cases (eqb (length items) 0)) [
        | inl nothing ↦
            rw nothing
              (rw get-seen (λ e. sym (ap (λ (x : HostSession). x.observed_remote_ip) (some_inj e))))
        | inr given ↦ elim (Bool-cases done.attached) [
          | inl held ↦ rw given (
              rw get_or_create-seen (
                rw held (
                  rw (get-put_self seen.hosts from done.session) (λ e.
                    sym (ap (λ (x : HostSession). x.observed_remote_ip) (some_inj e))
                    ∙ apply_items-observed items a))))
          | inr lost ↦ rw given (
              rw get_or_create-seen (
                rw lost
                  (λ e. absurd (ground (arith, get-del seen.hosts from from, eqb_iff from from)))))
        ]
      ]

-- When the server has recorded the address that it sees of a client, an address without blanks around
-- it, then after any payload of that client, if its session is still there, the client's row shows this
-- address first, whatever the payload published, and behind it the same one or a public one.
pub row_items-observed :
    (now later : Time) (from : ℕ) (ip payload rid : Text) (s : HostStore) (h : HostSession)
    → is_empty ip ≡ false
    → trim_space ip ≡ ip
    → get (apply_host_data later from payload (set_observed_remote_ip now from ip s)).hosts from
      ≡ some h
    → (attr (row_items rid h) (codes "IpAddr") ≡ ip)
      × ((attr (row_items rid h) (codes "Ip2") ≡ ip)
          ⊎ (is_private_ip (attr (row_items rid h) (codes "Ip2")) ≡ false))
row_items-observed now later from ip payload rid s h some_ip trimmed left =
    let known : is_empty (trim_space ip) ≡ false = rw trimmed some_ip in
    let observed : h.observed_remote_ip ≡ ip =
      observed-apply now from ip s known later payload h (unfold seen in left) ∙ trimmed in
    let (first, second) =
      host_browse_ips-public h.observed_remote_ip h.server (rw observed known) in
    let ips = host_browse_ips h.observed_remote_ip h.server in
    let primary : attr (row_items rid h) (codes "IpAddr") ≡ ips.0 =
      unfold same_text in row_items-exact rid h (codes "IpAddr") in
    let secondary : attr (row_items rid h) (codes "Ip2") ≡ (if is_empty ips.0 then [] else ips.1) =
      unfold same_text in row_items-exact rid h (codes "Ip2") in
    let shows : (host_browse_ips h.observed_remote_ip h.server).0 ≡ ip = first ∙ observed in
    let behind : attr (row_items rid h) (codes "Ip2")
        ≡ (host_browse_ips h.observed_remote_ip h.server).1 =
      secondary ∙ rw (shows, some_ip) refl in
    (
      primary ∙ shows,
      elim second [
        | inl same ↦ inl (behind ∙ same ∙ observed)
        | inr public ↦ inr (rw behind public)
      ],
    )
