-- ===== src/State/Hosts/Contents.antt =====
-- What a call does to the host store, whatever the order of Go's map, and what it leaves of a
-- session (internal/state/host_store.go).
use open_zone.Base.{
  List, [], ◌∷◌, ℕ, ◌≡◌, refl, ap, ◌∙◌, true, Option, none, some, inl, inr, codes, nat_eq, arith,
  eqb, eqb_iff, length, Bool-cases, if◌then◌else◌,
}
use open_zone.Base.Attrs.{is_empty}
use open_zone.Base.Dict.{get, put, del, get-put, get-put_self, get-del}
use open_zone.Base.Strings.{trim_space}
use open_zone.State.Items.{scan_self_closing_elements}
use open_zone.State.Hosts.{
  HostStore, HostSession, Applying, get_or_create, set_loc, set_observed_remote_ip, apply_host_data,
  apply_items, write_back, found_or_created, create, wrapped, blank_session,
}
use open_zone.State.Hosts.Calls.{
  HostCall, set_loc_call, observe_call, host_data_call, sender, perform, run,
}

-- The same sessions under the same DPNIDs, and the same counter.
abbrev pub SameStore : HostStore → HostStore → Type 0
SameStore s t = ((k : ℕ) → get s.hosts k ≡ get t.hosts k) × (s.next_rid ≡ t.next_rid)

put-SameStore :
    (s t : HostStore) (k : ℕ) (h : HostSession)
    → SameStore s t
    → SameStore (record s { hosts = put s.hosts k h }) (record t { hosts = put t.hosts k h })
put-SameStore s t k h same =
    (λ j. ground (arith, get-put s.hosts k j h, get-put t.hosts k j h, same.0 j), same.1)

del-SameStore :
    (s t : HostStore) (k : ℕ)
    → SameStore s t
    → SameStore (record s { hosts = del s.hosts k }) (record t { hosts = del t.hosts k })
del-SameStore s t k same =
    (λ j. ground (arith, get-del s.hosts k j, get-del t.hosts k j, same.0 j), same.1)

found_or_created-SameStore :
    (from : ℕ) (s t : HostStore) (o : Option HostSession)
    → SameStore s t
    → SameStore (found_or_created from s o).0 (found_or_created from t o).0
      × ((found_or_created from s o).1 ≡ (found_or_created from t o).1)
unfolding create
found_or_created-SameStore from s t (some h) same = (same, refl)
found_or_created-SameStore from s t none same =
    let blank = blank_session (wrapped t.next_rid) in
    (
      (λ j. rw (same.1) ((put-SameStore s t from blank same).0 j), rw (same.1) refl),
      rw (same.1) refl,
    )

get_or_create-SameStore :
    (from : ℕ) (s t : HostStore)
    → SameStore s t
    → SameStore (get_or_create from s).0 (get_or_create from t).0
      × ((get_or_create from s).1 ≡ (get_or_create from t).1)
unfolding get_or_create
get_or_create-SameStore from s t same =
    rw (same.0 from) (found_or_created-SameStore from s t (get t.hosts from) same)

write_back-SameStore :
    (from : ℕ) (s t : HostStore) (a : Applying)
    → SameStore s t
    → SameStore (write_back from s a) (write_back from t a)
write_back-SameStore from s t a same = elim (Bool-cases a.attached) [
  | inl held ↦ rw held (put-SameStore s t from a.session same)
  | inr lost ↦ rw lost (del-SameStore s t from same)
]

-- A call does the same to stores that hold the same.
pub perform-SameStore :
    (c : HostCall) (s t : HostStore) → SameStore s t → SameStore (perform c s) (perform c t)
unfolding perform set_loc set_observed_remote_ip apply_host_data
perform-SameStore (set_loc_call now d location) s t same =
    let (rest, h) = get_or_create-SameStore d s t same in
    rw h (
      put-SameStore (get_or_create d s).0 (get_or_create d t).0 d
        (record ((get_or_create d t).1) { location = location; last_update = now }) rest)
perform-SameStore (observe_call now d ip) s t same =
    let (rest, h) = get_or_create-SameStore d s t same in
    elim (Bool-cases (is_empty (trim_space ip))) [
      | inl blank ↦ rw blank same
      | inr given ↦ rw given (
          rw h (
            put-SameStore (get_or_create d s).0 (get_or_create d t).0 d
              (record ((get_or_create d t).1) {
                observed_remote_ip = trim_space ip;
                last_update = now;
              })
              rest))
    ]
perform-SameStore (host_data_call now d payload) s t same =
    let (rest, h) = get_or_create-SameStore d s t same in
    let items = scan_self_closing_elements payload (codes "Item") in
    elim (Bool-cases (eqb (length items) 0)) [
      | inl nothing ↦ rw nothing same
      | inr some_items ↦ rw some_items (
          rw h (
            write_back-SameStore d (get_or_create d s).0 (get_or_create d t).0
              (apply_items items (record {
                session = record ((get_or_create d t).1) { last_update = now };
                attached = true;
              }))
              rest))
    ]

pub run-SameStore :
    (cs : List HostCall) (s t : HostStore) → SameStore s t → SameStore (run cs s) (run cs t)
unfolding run
run-SameStore [] s t same = same
run-SameStore (c ∷ cs) s t same =
    run-SameStore cs (perform c s) (perform c t) (perform-SameStore c s t same)

-- What a call leaves of the session of its sender.
abbrev left_of : Applying → Option HostSession
left_of a = if a.attached then some a.session else none

abbrev pub outcome : HostCall → HostSession → Option HostSession
outcome (set_loc_call now d location) h = some (record h { location = location; last_update = now })
outcome (observe_call now d ip) h =
    if is_empty (trim_space ip)
    then some h
    else some (record h { observed_remote_ip = trim_space ip; last_update = now })
outcome (host_data_call now d payload) h =
    let items = scan_self_closing_elements payload (codes "Item") in
    if eqb (length items) 0
    then some h
    else left_of
        (apply_items items (record { session = record h { last_update = now }; attached = true }))

get_or_create-found :
    (from : ℕ) (s : HostStore) (h : HostSession)
    → get s.hosts from ≡ some h
    → get_or_create from s ≡ (s, h)
unfolding get_or_create
get_or_create-found from s h held = rw held refl

write_back-left_of :
    (from : ℕ) (s : HostStore) (a : Applying)
    → (get (write_back from s a).hosts from ≡ left_of a)
      × ((write_back from s a).next_rid ≡ s.next_rid)
write_back-left_of from s a = elim (Bool-cases a.attached) [
  | inl held ↦ rw held (get-put_self s.hosts from a.session, refl)
  | inr lost ↦ rw lost (ground (arith, get-del s.hosts from from, eqb_iff from from), refl)
]

next_rid-found :
    (from : ℕ) (s : HostStore) (h : HostSession)
    → get s.hosts from ≡ some h
    → (get_or_create from s).0.next_rid ≡ s.next_rid
next_rid-found from s h held =
    ap (λ (found : HostStore × HostSession). found.0.next_rid) (get_or_create-found from s h held)

session-found :
    (from : ℕ) (s : HostStore) (h : HostSession)
    → get s.hosts from ≡ some h
    → (get_or_create from s).1 ≡ h
session-found from s h held =
    ap (λ (found : HostStore × HostSession). found.1) (get_or_create-found from s h held)

-- A call of a client with a session, described by that session alone.
pub perform-outcome :
    (c : HostCall) (s : HostStore) (h : HostSession)
    → get s.hosts (sender c) ≡ some h
    → (get (perform c s).hosts (sender c) ≡ outcome c h) × ((perform c s).next_rid ≡ s.next_rid)
unfolding perform set_loc set_observed_remote_ip apply_host_data
perform-outcome (set_loc_call now d location) s h held = (
  rw (session-found d s h held) (get-put_self (get_or_create d s).0.hosts d _),
  next_rid-found d s h held,
)
perform-outcome (observe_call now d ip) s h held = elim (Bool-cases (is_empty (trim_space ip))) [
  | inl blank ↦ rw blank (held, refl)
  | inr given ↦ rw given (
    rw (session-found d s h held) (get-put_self (get_or_create d s).0.hosts d _),
    next_rid-found d s h held,
  )
]
perform-outcome (host_data_call now d payload) s h held =
    let items = scan_self_closing_elements payload (codes "Item") in
    elim (Bool-cases (eqb (length items) 0)) [
      | inl nothing ↦ rw nothing (held, refl)
      | inr some_items ↦
          let left = write_back-left_of d (get_or_create d s).0 (
            apply_items items (record {
              session = record ((get_or_create d s).1) { last_update = now };
              attached = true;
            })) in
          rw some_items (
            left.0
                ∙ ap
                    (λ (g : HostSession). left_of (
                      apply_items items
                        (record { session = record g { last_update = now }; attached = true })))
                    (session-found d s h held),
            left.1 ∙ next_rid-found d s h held,
          )
    ]
