-- ===== src/State/Hosts/Unordered.antt =====
-- The host store as a Go map: what it holds, without an order (internal/state/host_store.go).
use mathlib.Core.Quot.{Quot}
use open_zone.Base.{
  ◌≡◌, ◌≢◌, sym, subst, ◌∙◌, some, inl, inr, nat_eq, arith, eqb, eqb_iff, Bool-cases,
}
use open_zone.Base.Dict.{get}
use open_zone.State.Hosts.{HostStore, HostSession}
use open_zone.State.Hosts.Rids.{IsStore}
use open_zone.State.Hosts.Calls.{HostCall, sender, perform, perform-isolated}
use open_zone.State.Hosts.Contents.{SameStore, perform-outcome}

module _ (c d : HostCall) (s : HostStore) (hc hd : HostSession) (apart : sender c ≢ sender d)
    (known_c : get s.hosts (sender c) ≡ some hc) (known_d : get s.hosts (sender d) ≡ some hd) where
  c_after : get (perform d s).hosts (sender c) ≡ some hc
  c_after = perform-isolated d s (sender c) (λ e. apart (sym e)) ∙ known_c

  d_after : get (perform c s).hosts (sender d) ≡ some hd
  d_after = perform-isolated c s (sender d) apart ∙ known_d

  pub perform-SameStore_swap : SameStore (perform c (perform d s)) (perform d (perform c s))
  perform-SameStore_swap = (
    λ k. elim (Bool-cases (eqb k (sender c))) [
      | inl at_c ↦
          let same : k ≡ sender c = (eqb_iff k (sender c)).0 at_c in
          subst (λ j. get (perform c (perform d s)).hosts j ≡ get (perform d (perform c s)).hosts j)
            (sym same)
            ((perform-outcome c (perform d s) hc c_after).0
              ∙ sym (perform-outcome c s hc known_c).0
              ∙ sym (perform-isolated d (perform c s) (sender c) (λ e. apart (sym e))))
      | inr not_c ↦
          let other_c : sender c ≢ k = λ e. ground (arith, eqb_iff k (sender c)) in
          elim (Bool-cases (eqb k (sender d))) [
            | inl at_d ↦
                let same : k ≡ sender d = (eqb_iff k (sender d)).0 at_d in
                subst
                  (λ j.
                    get (perform c (perform d s)).hosts j ≡ get (perform d (perform c s)).hosts j)
                  (sym same)
                  (perform-isolated c (perform d s) (sender d) apart
                    ∙ (perform-outcome d s hd known_d).0
                    ∙ sym (perform-outcome d (perform c s) hd d_after).0)
            | inr not_d ↦
                let other_d : sender d ≢ k = λ e. ground (arith, eqb_iff k (sender d)) in
                perform-isolated c (perform d s) k other_c
                ∙ perform-isolated d s k other_d
                ∙ sym (perform-isolated c s k other_c)
                ∙ sym (perform-isolated d (perform c s) k other_d)
          ]
    ],
    (perform-outcome c (perform d s) hc c_after).1
        ∙ (perform-outcome d s hd known_d).1
        ∙ sym (perform-outcome c s hc known_c).1
        ∙ sym (perform-outcome d (perform c s) hd d_after).1,
  )

-- The Go map behind the store: a well-formed store, up to the order of its entries.
abbrev OrderedStore : Type 0
OrderedStore = (s : HostStore) × IsStore s

abbrev SameContents : OrderedStore → OrderedStore → Type 0
SameContents s t = SameStore s.0 t.0

abbrev pub UnorderedStore : Type 0
UnorderedStore = Quot SameContents

abbrev pub unordered : (s : HostStore) → IsStore s → UnorderedStore
unordered s i = Quot.mk (s, i)
