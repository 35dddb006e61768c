-- ===== src/State/Hosts/Calls.antt =====
-- The methods that write to the host store, as calls in any order, and what each can change.
use open_zone.Base.{
  ℕ, ◌+◌, ◌≤◌, ◌<◌, ◌≡◌, ◌≢◌, refl, ◌∙◌, true, Option, none, some, List, [], ◌∷◌, Text, codes,
  text_eq, nat_eq, arith, eqb, eqb_iff, length, Option-cases, Bool-cases, inl, inr,
}
use open_zone.Base.Attrs.{is_empty}
use open_zone.Base.Strings.{trim_space}
use open_zone.Base.Dict.{Dict, get, put, del, get-put, get-del}
use open_zone.State.Time.{Time}
use open_zone.State.Items.{scan_self_closing_elements}
use open_zone.State.Hosts.{
  HostSession, HostStore, max_rid, get_or_create, found_or_created, blank_session, wrapped, set_loc,
  set_observed_remote_ip, Applying, delete_item, delete_by_num, apply_item, apply_items,
  apply_host_data,
}
use open_zone.State.Hosts.Rids.{
  IsStore, HasDistinctRids, put-IsStore, del-IsStore, get-get_or_create, get_or_create-IsStore,
  next_rid-get_or_create, get_or_create-HasDistinctRids, put-HasDistinctRids, del-HasDistinctRids,
}

-- One call of a method, with the time it reads and the DPNID it is about.
pub data HostCall : Type 0 where
  set_loc_call : Time → ℕ → Text → HostCall
  observe_call : Time → ℕ → Text → HostCall
  host_data_call : Time → ℕ → Text → HostCall

abbrev pub sender : HostCall → ℕ
sender (set_loc_call now d text) = d
sender (observe_call now d text) = d
sender (host_data_call now d text) = d

unfoldable pub perform : HostCall → HostStore → HostStore
perform (set_loc_call now d location) s = set_loc now d location s
perform (observe_call now d ip) s = set_observed_remote_ip now d ip s
perform (host_data_call now d payload) s = apply_host_data now d payload s

unfoldable pub run : List HostCall → HostStore → HostStore
run [] s = s
run (c ∷ cs) s = run cs (perform c s)

delete_item-rid : (num : Text) (a : Applying) → (delete_item num a).session.rid ≡ a.session.rid
unfolding delete_item
delete_item-rid num a = ground arith

delete_by_num-rid :
    (o : Option Text) (attrs : Dict Text Text) (a : Applying)
    → (delete_by_num o attrs a).session.rid ≡ a.session.rid
delete_by_num-rid none attrs a = refl
delete_by_num-rid (some num) attrs a = ground (arith, delete_item-rid num a)

apply_item-rid :
    (attrs : Dict Text Text) (a : Applying) → (apply_item attrs a).session.rid ≡ a.session.rid
unfolding apply_item
apply_item-rid attrs a = ground (arith, delete_by_num-rid (get attrs (codes "Num")) attrs a)

pub apply_items-rid :
    (items : List (Dict Text Text)) (a : Applying)
    → (apply_items items a).session.rid ≡ a.session.rid
unfolding apply_items
apply_items-rid [] a = refl
apply_items-rid (attrs ∷ items) a =
    apply_items-rid items (apply_item attrs a) ∙ apply_item-rid attrs a

-- What a call can do to the store: nothing, or create the sender's session if it is missing and
-- then write it, with the row id that it has, or delete it.
data Update (from : ℕ) (s t : HostStore) : Type 0 where
  kept : t ≡ s → Update from s t
  wrote :
      (h : HostSession)
      → h.rid ≡ (get_or_create from s).1.rid
      → t ≡ record ((get_or_create from s).0) { hosts = put (get_or_create from s).0.hosts from h }
      → Update from s t
  deleted :
      t ≡ record ((get_or_create from s).0) { hosts = del (get_or_create from s).0.hosts from }
      → Update from s t

perform-Update : (c : HostCall) (s : HostStore) → Update (sender c) s (perform c s)
unfolding perform set_loc set_observed_remote_ip apply_host_data
perform-Update (set_loc_call now d location) s =
    wrote (record ((get_or_create d s).1) { location = location; last_update = now }) refl refl
perform-Update (observe_call now d ip) s = elim (Bool-cases (is_empty (trim_space ip))) [
  | inl blank ↦ kept (rw blank)
  | inr given ↦
      wrote
        (record ((get_or_create d s).1) { observed_remote_ip = trim_space ip; last_update = now })
        refl (rw given)
]
perform-Update (host_data_call now d payload) s =
    let items = scan_self_closing_elements payload (codes "Item") in
    let start : Applying = record {
      session = record ((get_or_create d s).1) { last_update = now };
      attached = true;
    } in
    let done = apply_items items start in
    elim (Bool-cases (eqb (length items) 0)) [
      | inl nothing ↦ kept (rw nothing)
      | inr some_items ↦ elim (Bool-cases done.attached) [
        | inl held ↦ wrote done.session (apply_items-rid items start) (rw some_items (rw held))
        | inr lost ↦ deleted (rw some_items (rw lost))
      ]
    ]

Update-IsStore : (from : ℕ) (s t : HostStore) → Update from s t → IsStore s → IsStore t
Update-IsStore from s t (kept e) i = rw e i
Update-IsStore from s t (wrote h r e) i =
    let (i', bounds) = get_or_create-IsStore from s i in
    rw e (put-IsStore (get_or_create from s).0 from h i' (rw r bounds))
Update-IsStore from s t (deleted e) i =
    rw e (del-IsStore (get_or_create from s).0 from (get_or_create-IsStore from s i).0)

Update-HasDistinctRids :
    (from : ℕ) (s t : HostStore)
    → Update from s t
    → IsStore s
    → s.next_rid < max_rid
    → HasDistinctRids s
    → HasDistinctRids t
Update-HasDistinctRids from s t (kept e) i room u = rw e u
Update-HasDistinctRids from s t (wrote h r e) i room u = rw e (
    put-HasDistinctRids (get_or_create from s).0 from (get_or_create from s).1 h
      (get_or_create-HasDistinctRids from s i room u) (get-get_or_create from s) r)
Update-HasDistinctRids from s t (deleted e) i room u = rw e (
    del-HasDistinctRids (get_or_create from s).0 from
      (get_or_create-HasDistinctRids from s i room u))

Update-next_rid :
    (from : ℕ) (s t : HostStore)
    → Update from s t
    → IsStore s
    → s.next_rid < max_rid
    → t.next_rid ≤ s.next_rid + 1
Update-next_rid from s t (kept e) i room = rw e (omega arith)
Update-next_rid from s t (wrote h r e) i room = rw e ((next_rid-get_or_create from s i room).1)
Update-next_rid from s t (deleted e) i room = rw e ((next_rid-get_or_create from s i room).1)

-- Whatever the calls and their payloads, a well-formed store stays well-formed: one entry for each
-- DPNID, and every row id positive and below 2^31 - 1, as the client's signed `int` wants it.
pub run-IsStore : (cs : List HostCall) (s : HostStore) → IsStore s → IsStore (run cs s)
unfolding run
run-IsStore [] s i = i
run-IsStore (c ∷ cs) s i =
    run-IsStore cs (perform c s) (Update-IsStore (sender c) s (perform c s) (perform-Update c s) i)

-- From a well-formed store whose sessions have distinct row ids below the next one, two sessions
-- never come to share a row id, as long as there are too few calls to bring the counter to its wrap.
pub run-HasDistinctRids :
    (cs : List HostCall) (s : HostStore)
    → IsStore s
    → HasDistinctRids s
    → s.next_rid + length cs ≤ max_rid
    → HasDistinctRids (run cs s)
unfolding run
run-HasDistinctRids [] s i u room = u
run-HasDistinctRids (c ∷ cs) s i u room =
    let step = perform-Update c s in
    run-HasDistinctRids cs (perform c s) (Update-IsStore (sender c) s (perform c s) step i)
      (Update-HasDistinctRids (sender c) s (perform c s) step i (omega arith) u)
      (omega (arith, Update-next_rid (sender c) s (perform c s) step i (omega arith)))

get-get_or_create_ne :
    (from d : ℕ) (s : HostStore) → from ≢ d → get (get_or_create from s).0.hosts d ≡ get s.hosts d
unfolding get_or_create
get-get_or_create_ne from d s ne = elim (Option-cases (get s.hosts from)) [
  | inl missing ↦
      rw (missing, found_or_created)
        (ground
          (arith, get-put s.hosts from d (blank_session (wrapped s.next_rid)), eqb_iff from d))
  | inr (h, found) ↦ rw (found, found_or_created)
]

Update-isolated :
    (from d : ℕ) (s t : HostStore) → Update from s t → from ≢ d → get t.hosts d ≡ get s.hosts d
Update-isolated from d s t (kept e) ne = rw e
Update-isolated from d s t (wrote h r e) ne = rw e (
    ground (
      arith,
      get-put (get_or_create from s).0.hosts from d h,
      eqb_iff from d,
      get-get_or_create_ne from d s ne,
    ))
Update-isolated from d s t (deleted e) ne = rw e (
    ground (
      arith,
      get-del (get_or_create from s).0.hosts from d,
      eqb_iff from d,
      get-get_or_create_ne from d s ne,
    ))

-- A call leaves the session of every DPNID but the sender's as it was.
pub perform-isolated :
    (c : HostCall) (s : HostStore) (d : ℕ)
    → sender c ≢ d
    → get (perform c s).hosts d ≡ get s.hosts d
perform-isolated c s d ne = Update-isolated (sender c) d s (perform c s) (perform-Update c s) ne
