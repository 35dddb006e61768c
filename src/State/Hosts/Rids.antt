-- ===== src/State/Hosts/Rids.antt =====
-- Row ids: they fit a signed 32-bit integer, and two sessions never share one until the counter
-- has wrapped.
use open_zone.Base.{
  ℕ, ◌+◌, ◌%◌, ◌^◌, ◌≤◌, ◌<◌, ◌≡◌, some, text_eq, nat_eq, arith, eqb_iff, Option-cases, inl, inr,
}
use open_zone.Base.Dict.{
  get, put, del, get-put, get-del, get-put_self, UniqueKeys, UniqueKeys-put, UniqueKeys-del,
}
use open_zone.State.Hosts.{
  HostSession, HostStore, max_rid, wrapped, blank_session, found_or_created, get_or_create,
}

-- Well-formed: one entry for each DPNID, and every row id, the next one too, is in the range of a
-- positive int32.
pub record IsStore (s : HostStore) : Type 0 where
  pub unique : UniqueKeys s.hosts
  pub rids : (d : ℕ) (h : HostSession) → get s.hosts d ≡ some h → (1 ≤ h.rid) × (h.rid < max_rid)
  pub next : (1 ≤ s.next_rid) × (s.next_rid ≤ max_rid)

-- Every row id in use is below the next one, and no two sessions share one.
pub record HasDistinctRids (s : HostStore) : Type 0 where
  pub below : (d : ℕ) (h : HostSession) → get s.hosts d ≡ some h → h.rid < s.next_rid
  pub distinct :
      (d e : ℕ) (h g : HostSession)
      → get s.hosts d ≡ some h
      → get s.hosts e ≡ some g
      → h.rid ≡ g.rid
      → d ≡ e

pub put-IsStore :
    (s : HostStore) (from : ℕ) (h' : HostSession)
    → IsStore s
    → (1 ≤ h'.rid) × (h'.rid < max_rid)
    → IsStore (record s { hosts = put s.hosts from h' })
put-IsStore s from h' i r = record {
  unique = UniqueKeys-put s.hosts from h' i.unique;
  rids = λ d h e. ground (arith, get-put s.hosts from d h', i.rids d h);
  next = i.next;
}

pub del-IsStore :
    (s : HostStore) (from : ℕ) → IsStore s → IsStore (record s { hosts = del s.hosts from })
del-IsStore s from i = record {
  unique = UniqueKeys-del s.hosts from i.unique;
  rids = λ d h e. ground (arith, get-del s.hosts from d, i.rids d h);
  next = i.next;
}

wrapped_bounds : (n : ℕ) → n ≤ max_rid → (1 ≤ wrapped n) × (wrapped n < max_rid)
wrapped_bounds n h = ground arith

next_rid_step : (n : ℕ) → 1 ≤ n → n < max_rid → (wrapped n ≡ n) × ((wrapped n + 1) % 2 ^ 32 ≡ n + 1)
next_rid_step n one h = ground arith

new_rid-HasDistinctRids :
    (s : HostStore) (from : ℕ)
    → IsStore s
    → s.next_rid < max_rid
    → HasDistinctRids s
    → HasDistinctRids (record {
      hosts = put s.hosts from (blank_session (wrapped s.next_rid));
      next_rid = (wrapped s.next_rid + 1) % 2 ^ 32;
    })
new_rid-HasDistinctRids s from i room u =
    let n = s.next_rid in
    let fresh = blank_session (wrapped n) in
    let (same, next) = next_rid_step n i.next.0 room in
    record {
      below = λ d x e. ground (arith, get-put s.hosts from d fresh, u.below d x, same, next);
      distinct = λ d e x g p q r. ground (
        arith,
        get-put s.hosts from d fresh,
        get-put s.hosts from e fresh,
        eqb_iff from d,
        eqb_iff from e,
        u.distinct d e x g,
        u.below d x,
        u.below e g,
        same,
      );
    }

module _ (from : ℕ) (s : HostStore) where
  -- The session that `get_or_create` returns is in the map that it returns.
  pub get-get_or_create : get (get_or_create from s).0.hosts from ≡ some (get_or_create from s).1
  unfolding get_or_create
  get-get_or_create = elim (Option-cases (get s.hosts from)) [
    | inl missing ↦
        rw (missing, found_or_created)
          (get-put_self s.hosts from (blank_session (wrapped s.next_rid)))
    | inr (h, found) ↦ rw (found, found_or_created) found
  ]

  pub get_or_create-IsStore :
      IsStore s
      → IsStore (get_or_create from s).0
        × ((1 ≤ (get_or_create from s).1.rid) × ((get_or_create from s).1.rid < max_rid))
  unfolding get_or_create
  get_or_create-IsStore i = elim (Option-cases (get s.hosts from)) [
    | inl missing ↦
        let r = wrapped s.next_rid in
        let b = wrapped_bounds s.next_rid i.next.1 in
        rw (missing, found_or_created)
          (
            let kept = put-IsStore s from (blank_session r) i b in
                record { unique = kept.unique; rids = kept.rids; next = omega arith },
            b,
          )
    | inr (h, found) ↦ rw (found, found_or_created) (i, i.rids from h found)
  ]

  pub next_rid-get_or_create :
      IsStore s
      → s.next_rid < max_rid
      → (s.next_rid ≤ (get_or_create from s).0.next_rid)
        × ((get_or_create from s).0.next_rid ≤ s.next_rid + 1)
  unfolding get_or_create
  next_rid-get_or_create i room = elim (Option-cases (get s.hosts from)) [
    | inl missing ↦ rw (missing, found_or_created) (ground arith)
    | inr (h, found) ↦ rw (found, found_or_created) (omega arith)
  ]

  pub get_or_create-HasDistinctRids :
      IsStore s
      → s.next_rid < max_rid
      → HasDistinctRids s
      → HasDistinctRids (get_or_create from s).0
  unfolding get_or_create
  get_or_create-HasDistinctRids i room u = elim (Option-cases (get s.hosts from)) [
    | inl missing ↦ rw (missing, found_or_created) (new_rid-HasDistinctRids s from i room u)
    | inr (h, found) ↦ rw (found, found_or_created) u
  ]

-- A write of a session with the row id that the map already holds for its DPNID.
pub put-HasDistinctRids :
    (s : HostStore) (from : ℕ) (h h' : HostSession)
    → HasDistinctRids s
    → get s.hosts from ≡ some h
    → h'.rid ≡ h.rid
    → HasDistinctRids (record s { hosts = put s.hosts from h' })
put-HasDistinctRids s from h h' u held same = record {
  below = λ d x e.
      ground (arith, get-put s.hosts from d h', eqb_iff from d, u.below d x, u.below from h held);
  distinct = λ d e x g p q r. ground (
    arith,
    get-put s.hosts from d h',
    get-put s.hosts from e h',
    eqb_iff from d,
    eqb_iff from e,
    u.distinct d e x g,
    u.distinct from e h g held,
    u.distinct d from x h,
  );
}

pub del-HasDistinctRids :
    (s : HostStore) (from : ℕ)
    → HasDistinctRids s
    → HasDistinctRids (record s { hosts = del s.hosts from })
del-HasDistinctRids s from u = record {
  below = λ d x e. ground (arith, get-del s.hosts from d, u.below d x);
  distinct = λ d e x g p q r.
      ground (arith, get-del s.hosts from d, get-del s.hosts from e, u.distinct d e x g);
}
