-- ===== src/Proto/Engine/Serve.antt =====
-- Any number of messages through `Handle` (internal/proto/protocol.go), one after the other.
use open_zone.Base.{
  ℕ, ◌+◌, ◌*◌, ◌≤◌, ◌≡◌, refl, ap, sym, ◌∙◌, some, List, [], ◌∷◌, ◌++◌, Text, text_eq, nat_eq,
  arith, length, length-append, All,
}
use open_zone.Base.Dict.{get}
use open_zone.State.Time.{Time}
use open_zone.State.Hosts.{HostStore, new_host_store, max_rid}
use open_zone.State.Hosts.Rids.{IsStore, HasDistinctRids}
use open_zone.State.Hosts.Calls.{HostCall, perform, run, run-IsStore, run-HasDistinctRids}
use open_zone.State.Rows.{games_rows, row_by_rid}
use open_zone.State.Rows.Lookup.{row_by_rid-games_rows}
use open_zone.Proto.Xmlish.{Msg}
use open_zone.Proto.Engine.{Engine}
use open_zone.Proto.Engine.Handlers.{Readings}
use open_zone.Proto.Engine.Dispatch.{handle}
use open_zone.Proto.Engine.Effects.{calls_of, handle-calls}

-- One message as it reaches the engine: the handler's time, the clock readings of the stores, the
-- sender with its address, and the message.
pub record Request : Type 0 where
  pub now : Time
  pub clock : Readings
  pub from : ℕ
  pub remote_ip : Text
  pub msg : Msg

unfoldable pub serve : List Request → Engine → Engine
serve [] p = p
serve (r ∷ rs) p = serve rs (handle r.now r.clock r.from r.remote_ip r.msg p).0

abbrev pub all_calls : List Request → List HostCall
all_calls [] = []
all_calls (r ∷ rs) = calls_of r.clock r.from r.remote_ip r.msg ++ all_calls rs

length-calls_of-le :
    (clock : Readings) (from : ℕ) (ip : Text) (m : Msg) → length (calls_of clock from ip m) ≤ 2
length-calls_of-le clock from ip m = ground arith

length-all_calls-le : (rs : List Request) → length (all_calls rs) ≤ 2 * length rs
length-all_calls-le [] = omega arith
length-all_calls-le (r ∷ rs) = omega (
  arith,
  length-append (calls_of r.clock r.from r.remote_ip r.msg) (all_calls rs),
  length-calls_of-le r.clock r.from r.remote_ip r.msg,
  length-all_calls-le rs,
)

run-append : (cs ds : List HostCall) (s : HostStore) → run (cs ++ ds) s ≡ run ds (run cs s)
unfolding run
run-append [] ds s = refl
run-append (c ∷ cs) ds s = run-append cs ds (perform c s)

serve-calls :
    (rs : List Request) (p : Engine) (s : HostStore)
    → p.host ≡ some s
    → (serve rs p).host ≡ some (run (all_calls rs) s)
unfolding serve run
serve-calls [] p s h = h
serve-calls (r ∷ rs) p s h =
    let cs = calls_of r.clock r.from r.remote_ip r.msg in
    serve-calls rs (handle r.now r.clock r.from r.remote_ip r.msg p).0 (run cs s) (
      ap (λ (q : Engine). q.host) (handle-calls r.clock r.from r.remote_ip r.msg p r.now)
      ∙ rw h refl)
    ∙ ap some (sym (run-append cs (all_calls rs) s))

pub new_host_store-IsStore : IsStore new_host_store
unfolding new_host_store get
new_host_store-IsStore = record {
  unique = tt;
  rids = λ d h e. absurd (cc);
  next = (omega arith, omega arith);
}

new_host_store-HasDistinctRids : HasDistinctRids new_host_store
unfolding new_host_store get
new_host_store-HasDistinctRids = record {
  below = λ d h e. absurd (cc);
  distinct = λ d e h g p q r. absurd (cc);
}

-- After at most 2^30 - 1 messages of any kind to an engine with a new host store, the engine has a
-- host store, and in it each row of the games list is the row that its row id looks up.
pub serve-games_rows :
    (rs : List Request) (p : Engine)
    → p.host ≡ some new_host_store
    → 2 * length rs + 1 ≤ max_rid
    → (s : HostStore) × ((serve rs p).host ≡ some s)
      × All (λ r. row_by_rid r.rid s ≡ some r) (games_rows 0 s)
unfolding new_host_store
serve-games_rows rs p h few =
    let cs = all_calls rs in
    (
      run cs new_host_store,
      serve-calls rs p new_host_store h,
      row_by_rid-games_rows (run cs new_host_store)
          (run-IsStore cs new_host_store new_host_store-IsStore).unique
          (run-HasDistinctRids cs new_host_store new_host_store-IsStore
            new_host_store-HasDistinctRids (omega (arith, length-all_calls-le rs))),
    )
