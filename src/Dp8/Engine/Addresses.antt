-- ===== src/Dp8/Engine/Addresses.antt =====
-- The addresses that the engine keeps are no host names (internal/dp8/engine.go).
use open_zone.Base.{
  ℕ, refl, true, false, not, ◌&&◌, inl, inr, [], ◌∷◌, Text, nat_eq, eqb, All, Bool-cases,
  if◌then◌else◌, Bool,
}
use open_zone.Base.Dict.{Dict, get, put, del}
use open_zone.Dp8.Address.{RemoteSummary, no_remote, parse_remote_from_dp8_url}
use open_zone.Dp8.Address.Safe.{IsAddress, parse_remote_from_dp8_url-safe}
use open_zone.Dp8.Engine.Cases.{apply_kind-cases, apply_message-cases}
use open_zone.Dp8.Engine.{
  Engine, Event, apply_kind, apply_message, handle_event, client_created, client_destroyed,
  or_no_remote, remote_of_new, is_unknown, sweep,
}
use open_zone.Dp8.Engine.Steps.{World, Step, handled, offered, sends, swept, Steps, done, step}

-- Every address that the engine keeps is empty, or digits and dots with a dot.
pub record HasAddresses (e : Engine) : Type 0 where
  pub clients : All (λ (c : ℕ × RemoteSummary). IsAddress c.1.ip) e.client_remote
  pub last : IsAddress e.last_indicate.ip

pub get-IsAddress :
    (m : Dict ℕ RemoteSummary) (d : ℕ)
    → All (λ (c : ℕ × RemoteSummary). IsAddress c.1.ip) m
    → IsAddress (or_no_remote (get m d)).ip
unfolding get
get-IsAddress [] d h = inl refl
get-IsAddress ((k, rs) ∷ m) d h = elim (Bool-cases (eqb k d)) [
  | inl e ↦ rw e h.0
  | inr e ↦ rw e (get-IsAddress m d h.1)
]

put-IsAddress :
    (m : Dict ℕ RemoteSummary) (d : ℕ) (rs : RemoteSummary)
    → IsAddress rs.ip
    → All (λ (c : ℕ × RemoteSummary). IsAddress c.1.ip) m
    → All (λ (c : ℕ × RemoteSummary). IsAddress c.1.ip) (put m d rs)
unfolding put
put-IsAddress [] d rs a h = (a, tt)
put-IsAddress ((k, r) ∷ m) d rs a h = elim (Bool-cases (eqb k d)) [
  | inl e ↦ rw e (a, h.1)
  | inr e ↦ rw e (h.0, put-IsAddress m d rs a h.1)
]

del-IsAddress :
    (m : Dict ℕ RemoteSummary) (d : ℕ)
    → All (λ (c : ℕ × RemoteSummary). IsAddress c.1.ip) m
    → All (λ (c : ℕ × RemoteSummary). IsAddress c.1.ip) (del m d)
unfolding del
del-IsAddress [] d h = tt
del-IsAddress ((k, r) ∷ m) d h = elim (Bool-cases (eqb k d)) [
  | inl e ↦ rw e (del-IsAddress m d h.1)
  | inr e ↦ rw e (h.0, del-IsAddress m d h.1)
]

if-IsAddress :
    (b : Bool) (x y : RemoteSummary)
    → IsAddress x.ip
    → IsAddress y.ip
    → IsAddress (if b then x else y).ip
if-IsAddress true x y h k = h
if-IsAddress false x y h k = k

pub remote_of_new-IsAddress :
    (payload : Text) (last : RemoteSummary)
    → IsAddress last.ip
    → IsAddress (remote_of_new payload last).ip
remote_of_new-IsAddress [] last h =
    if-IsAddress (is_unknown no_remote && not (is_unknown last)) last no_remote h (inl refl)
remote_of_new-IsAddress (c ∷ s) last h =
    let rs = parse_remote_from_dp8_url (c ∷ s) in
    if-IsAddress (is_unknown rs && not (is_unknown last)) last rs h
      (parse_remote_from_dp8_url-safe (c ∷ s)).0

created-HasAddresses :
    (evt : Event) (e : Engine) → HasAddresses e → HasAddresses (client_created evt e)
unfolding client_created
created-HasAddresses evt e h =
    let rs = remote_of_new evt.payload e.last_indicate in
    elim (Bool-cases (is_unknown rs)) [
      | inl hidden ↦ rw hidden (record { clients = h.clients; last = h.last })
      | inr known ↦ rw known (record {
        clients =
            put-IsAddress e.client_remote evt.dpnid rs
              (remote_of_new-IsAddress evt.payload e.last_indicate h.last) h.clients;
        last = h.last;
      })
    ]

pub apply_kind-HasAddresses :
    (evt : Event) (e : Engine) → HasAddresses e → HasAddresses (apply_kind evt e)
unfolding client_destroyed
apply_kind-HasAddresses evt e h =
    apply_kind-cases HasAddresses evt e (created-HasAddresses evt e h)
      (λ k. record { clients = del-IsAddress e.client_remote evt.dpnid h.clients; last = h.last })
      (record { clients = h.clients; last = (parse_remote_from_dp8_url-safe evt.payload).0 }) h

apply_message-HasAddresses :
    (evt : Event) (e : Engine) → HasAddresses e → HasAddresses (apply_message evt e)
apply_message-HasAddresses evt e h =
    apply_message-cases HasAddresses evt e h
      (λ m parsed. record { clients = h.clients; last = h.last })

Step-HasAddresses : (u v : World) → Step u v → HasAddresses u.engine → HasAddresses v.engine
Step-HasAddresses u v (handled evt w idle) h =
    unfold handle_event in
    apply_message-HasAddresses evt (apply_kind evt w.engine)
      (apply_kind-HasAddresses evt w.engine h)
Step-HasAddresses u v (offered o rest w e) h = record { clients = h.clients; last = h.last }
Step-HasAddresses u v (sends o rest w e) h = record { clients = h.clients; last = h.last }
Step-HasAddresses u v (swept wall now w) h =
    unfold sweep in record { clients = h.clients; last = h.last }

pub Steps-HasAddresses : (u v : World) → Steps u v → HasAddresses u.engine → HasAddresses v.engine
Steps-HasAddresses u v (done w) h = h
Steps-HasAddresses u v (step x y z s r) h = Steps-HasAddresses y z r (Step-HasAddresses x y s h)
