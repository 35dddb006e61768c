-- ===== src/State/Rows/Lookup.antt =====
-- `RowByRid` finds the session that a listed row was made from, with the same items.
use open_zone.Base.{
  ℕ, ◌≡◌, refl, ap, Option, none, some, List, [], ◌∷◌, nat_eq, text_eq, same_text, arith, eqb_iff,
  All, All-append, Bool-cases, inl, inr,
}
use open_zone.Base.Numbers.{decimal, decimal-injective}
use open_zone.Base.Dict.{Dict, get, UniqueKeys}
use open_zone.State.Hosts.{HostSession, HostStore}
use open_zone.State.Hosts.Rids.{HasDistinctRids}
use open_zone.State.Rows.{
  is_visible, row_items, row_of, row_for, search_rid, row_by_rid, games_rows, sort_keys, keys,
}
use open_zone.State.Rows.Listing.{rows_of, games_rows_uncapped}

search_rid-finds :
    (m : Dict ℕ HostSession) (d : ℕ) (h : HostSession)
    → UniqueKeys m
    → get m d ≡ some h
    → ((k : ℕ) (g : HostSession) → get m k ≡ some g → g.rid ≡ h.rid → k ≡ d)
    → search_rid (decimal h.rid) m ≡ some (row_of h)
unfolding search_rid get
search_rid-finds [] d h u held only = absurd (cc)
search_rid-finds ((k, g) ∷ m) d h u held only =
    elim (Bool-cases (same_text (decimal g.rid) (decimal h.rid))) [
      | inl hit ↦
          let same : g.rid ≡ h.rid =
            decimal-injective g.rid h.rid
              ((text_eq.equals_iff (decimal g.rid) (decimal h.rid)).0 hit) in
          let key : k ≡ d = only k g (ground (arith, eqb_iff k k)) same in
          let found : g ≡ h = ground (arith, eqb_iff k d, key, held) in
          rw hit (
            ap
              (λ (x : HostSession).
                some (record { rid = decimal h.rid; items = row_items (decimal h.rid) x }))
              found)
      | inr miss ↦ rw miss (
          search_rid-finds m d h u.1
            (ground
              (arith, eqb_iff k d, (text_eq.equals_iff (decimal h.rid) (decimal h.rid)).1 refl))
            (λ j x e r. only j x (ground (arith, eqb_iff k j, u.0)) r))
    ]

rows_of-found :
    (s : HostStore) (ks : List ℕ)
    → UniqueKeys s.hosts
    → HasDistinctRids s
    → All (λ r. row_by_rid r.rid s ≡ some r) (rows_of s.hosts ks)
unfolding row_by_rid
rows_of-found s [] u distinct = tt
rows_of-found s (k ∷ ks) u distinct =
    All-append _ (row_for (get s.hosts k)) (rows_of s.hosts ks) (one (get s.hosts k) refl)
      (rows_of-found s ks u distinct)
  where
    one :
        (o : Option HostSession)
        → get s.hosts k ≡ o
        → All (λ r. search_rid r.rid s.hosts ≡ some r) (row_for o)
    one none e = tt
    one (some h) e = elim (Bool-cases (is_visible h)) [
      | inl shown ↦ rw shown (
        search_rid-finds s.hosts k h u e (λ j g held same. distinct.distinct j k g h held e same),
        tt,
      )
      | inr hidden ↦ rw hidden tt
    ]

-- In a store with one entry for each DPNID and distinct row ids, every row that the games list shows
-- is the one that a details request for its row id gets, items included.
pub row_by_rid-games_rows :
    (s : HostStore)
    → UniqueKeys s.hosts
    → HasDistinctRids s
    → All (λ r. row_by_rid r.rid s ≡ some r) (games_rows 0 s)
row_by_rid-games_rows s u distinct =
    rw (games_rows_uncapped s) (rows_of-found s (sort_keys (keys s.hosts)) u distinct)
