-- ===== src/Proto/Engine/Effects.antt =====
-- What the handlers of internal/proto/protocol.go do to the stores: calls of host store methods by the
-- sender of the message, and nothing else.
use open_zone.Base.{
  ℕ, ◌≡◌, refl, ap, sym, ◌∙◌, true, false, Option, none, some, List, [], ◌∷◌, Text, codes, text_eq,
  nat_eq, same_text, arith, if◌then◌else◌,
}
use open_zone.State.Time.{Time}
use open_zone.State.Addresses.{attr}
use open_zone.State.Hosts.{HostStore, set_observed_remote_ip}
use open_zone.State.Hosts.Calls.{HostCall, set_loc_call, observe_call, host_data_call, perform, run}
use open_zone.Proto.Xmlish.{Msg}
use open_zone.Proto.Engine.{Engine, Outbound}
use open_zone.Proto.Engine.Cases.{handle-cases}
use open_zone.Proto.Engine.Handlers.{Readings, on_host, observe, handle_set_loc, handle_host_data}
use open_zone.Proto.Engine.Dispatch.{handle}

-- The store calls that a message stands for.
abbrev pub calls_of : Readings → ℕ → Text → Msg → List HostCall
calls_of clock from ip m =
    if same_text m.tag (codes "HostData")
    then observe_call clock.0 from ip ∷ host_data_call clock.1 from m.raw ∷ []
    else if same_text m.tag (codes "SetLoc")
    then observe_call clock.0 from ip
      ∷ set_loc_call clock.1 from (attr m.attrs (codes "Location"))
      ∷ []
    else []

observe_always :
    (now : Time) (from : ℕ) (ip : Text) (s : HostStore)
    → observe now from ip s ≡ set_observed_remote_ip now from ip s
unfolding set_observed_remote_ip
observe_always now from ip s = ground arith

on_host_same :
    (p : Engine) (f : HostStore → HostStore) → ((s : HostStore) → f s ≡ s) → on_host f p ≡ p
on_host_same p f h = ap (λ (o : Option HostStore). record p { host = o }) (same p.host)
  where
    same : (o : Option HostStore) → elim o [ none ↦ none | some s ↦ some (f s) ] ≡ o
    same none = refl
    same (some s) = ap some (h s)

on_host_ext :
    (p : Engine) (f g : HostStore → HostStore)
    → ((s : HostStore) → f s ≡ g s)
    → on_host f p ≡ on_host g p
on_host_ext p f g h = ap (λ (o : Option HostStore). record p { host = o }) (same p.host)
  where
    same :
        (o : Option HostStore)
        → elim o [ none ↦ none | some s ↦ some (f s) ]
          ≡ elim o [ none ↦ none | some s ↦ some (g s) ]
    same none = refl
    same (some s) = ap some (h s)

-- HostData and SetLoc each make two calls.
module _ (clock : Readings) (from : ℕ) (ip : Text) (m : Msg) (p : Engine) where
  host_data-calls :
      (handle_host_data clock from ip m p).0
      ≡ on_host (run (observe_call clock.0 from ip ∷ host_data_call clock.1 from m.raw ∷ [])) p
  unfolding handle_host_data run perform
  host_data-calls = on_host_ext p _ _ (λ s. rw (observe_always clock.0 from ip s) refl)

  set_loc-calls :
      (handle_set_loc clock from ip m p).0
      ≡ on_host
          (run (
            observe_call clock.0 from ip
            ∷ set_loc_call clock.1 from (attr m.attrs (codes "Location"))
            ∷ []))
          p
  unfolding handle_set_loc run perform
  set_loc-calls = on_host_ext p _ _ (λ s. rw (observe_always clock.0 from ip s) refl)

  nothing : on_host (run []) p ≡ p
  unfolding run
  nothing = on_host_same p (run []) (λ s. refl)

  by_calls :
      (q : Engine) (cs : List HostCall)
      → calls_of clock from ip m ≡ cs
      → q ≡ on_host (run cs) p
      → q ≡ on_host (run (calls_of clock from ip m)) p
  by_calls q cs e h = h ∙ ap (λ (ds : List HostCall). on_host (run ds) p) (sym e)

  -- A message with another tag than HostData and SetLoc stands for no call.
  no_calls :
      (k : Text)
      → same_text m.tag k ≡ true
      → same_text k (codes "HostData") ≡ false
      → same_text k (codes "SetLoc") ≡ false
      → p ≡ on_host (run (calls_of clock from ip m)) p
  no_calls k e h l =
      let tag : m.tag ≡ k = (text_eq.equals_iff m.tag k).0 e in
      let none_made : calls_of clock from ip m ≡ [] = rw (tag, calls_of) (rw h (rw l refl)) in
      by_calls p [] none_made (sym nothing)

  -- A message acts on the engine as calls of the host store's methods by the sender: HostData and
  -- SetLoc first record the sender's address and then their data, and every other message calls none.
  -- The configuration and the players stay as they were.
  pub handle-calls :
      (now : Time) → (handle now clock from ip m p).0 ≡ on_host (run (calls_of clock from ip m)) p
  unfolding same_text
  handle-calls now =
      handle-cases
        (λ (x : Engine × List Outbound). x.0 ≡ on_host (run (calls_of clock from ip m)) p) now clock
        from ip m p (λ e. no_calls (codes "Connect") e refl refl)
        (λ e. no_calls (codes "HdrRow") e refl refl) (λ e. no_calls (codes "Page") e refl refl)
        (λ e. no_calls (codes "RowPg") e refl refl)
        (λ e.
          let made : calls_of clock from ip m
              ≡ observe_call clock.0 from ip ∷ host_data_call clock.1 from m.raw ∷ [] =
            rw (e, calls_of) refl in
          by_calls _ _ made host_data-calls)
        (λ n e.
          let made : calls_of clock from ip m
              ≡ observe_call clock.0 from ip
                ∷ set_loc_call clock.1 from (attr m.attrs (codes "Location"))
                ∷ [] =
            rw (n, calls_of) (rw e refl) in
          by_calls _ _ made set_loc-calls)
        (λ unknown.
          let n5 : same_text m.tag (codes "HostData") ≡ false = ground arith in
          let n6 : same_text m.tag (codes "SetLoc") ≡ false = ground arith in
          let made : calls_of clock from ip m ≡ [] = rw (n5, calls_of) (rw n6 refl) in
          by_calls p [] made (sym nothing))
