-- ===== src/Proto/Engine/Cases.antt =====
-- The ways that `Handle` can go (internal/proto/protocol.go).
use open_zone.Base.{
  ℕ, ◌≡◌, Bool, true, false, ◌||◌, List, Text, codes, text_eq, same_text, arith, Bool-cases, inl,
  inr,
}
use open_zone.State.Time.{Time}
use open_zone.Proto.Xmlish.{Msg}
use open_zone.Proto.Engine.{Engine, Outbound}
use open_zone.Proto.Engine.Handlers.{
  Readings, handle_connect, handle_hdr_row, handle_row_pg, handle_host_data, handle_set_loc,
}
use open_zone.Proto.Engine.Dispatch.{handle, handle_page, handle_fallback}

-- The tags that `Handle` has a handler for.
abbrev pub is_known : Text → Bool
is_known tag =
    same_text tag (codes "Connect")
    || (same_text tag (codes "HdrRow")
        || (same_text tag (codes "Page")
            || (same_text tag (codes "RowPg")
                || (same_text tag (codes "HostData") || same_text tag (codes "SetLoc")))))

-- What holds of each handler's result holds of the result of `Handle`.
pub handle-cases :
    (C : Engine × List Outbound → Type 0) (now : Time) (clock : Readings) (from : ℕ) (ip : Text)
    (m : Msg) (p : Engine)
    → (same_text m.tag (codes "Connect") ≡ true → C (p, handle_connect now m p))
    → (same_text m.tag (codes "HdrRow") ≡ true → C (p, handle_hdr_row m))
    → (same_text m.tag (codes "Page") ≡ true → C (p, handle_page m p))
    → (same_text m.tag (codes "RowPg") ≡ true → C (p, handle_row_pg m p))
    → (same_text m.tag (codes "HostData") ≡ true → C (handle_host_data clock from ip m p))
    → (same_text m.tag (codes "HostData") ≡ false
        → same_text m.tag (codes "SetLoc") ≡ true
        → C (handle_set_loc clock from ip m p))
    → (is_known m.tag ≡ false → C (p, handle_fallback m))
    → C (handle now clock from ip m p)
unfolding handle
handle-cases C now clock from ip m p connect hdr_row page row_pg host_data set_loc fallback =
    elim (Bool-cases (same_text m.tag (codes "Connect"))) [
      | inl e ↦ rw e (connect e)
      | inr n1 ↦ rw n1 (elim (Bool-cases (same_text m.tag (codes "HdrRow"))) [
        | inl e ↦ rw e (hdr_row e)
        | inr n2 ↦ rw n2 (elim (Bool-cases (same_text m.tag (codes "Page"))) [
          | inl e ↦ rw e (page e)
          | inr n3 ↦ rw n3 (elim (Bool-cases (same_text m.tag (codes "RowPg"))) [
            | inl e ↦ rw e (row_pg e)
            | inr n4 ↦ rw n4 (elim (Bool-cases (same_text m.tag (codes "HostData"))) [
              | inl e ↦ rw e (host_data e)
              | inr n5 ↦ rw n5 (elim (Bool-cases (same_text m.tag (codes "SetLoc"))) [
                | inl e ↦ rw e (set_loc n5 e)
                | inr n6 ↦ rw n6 (fallback (ground arith))
              ])
            ])
          ])
        ])
      ])
    ]
