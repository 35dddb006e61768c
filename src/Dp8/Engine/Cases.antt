-- ===== src/Dp8/Engine/Cases.antt =====
-- The ways that an event can go (internal/dp8/engine.go).
use open_zone.Base.{◌≡◌, true, not, ◌&&◌, some, nat_eq, eqb, Bool-cases, Option-cases, inl, inr}
use open_zone.Base.Attrs.{is_empty}
use open_zone.Proto.Xmlish.{Msg, parse, starts_with_byte}
use open_zone.Dp8.Address.{parse_remote_from_dp8_url}
use open_zone.Dp8.Summaries.{create_player, destroy_player, indicate_connect}
use open_zone.Dp8.Engine.{
  Engine, Event, apply_kind, apply_message, client_created, client_destroyed, answer, drops,
}

module _ (C : Engine → Type 0) (evt : Event) (e : Engine) where
  -- What each kind of event comes to.
  pub apply_kind-cases :
      C (client_created evt e)
      → (eqb evt.msg_id destroy_player ≡ true → C (client_destroyed evt e))
      → C (record e { last_indicate = parse_remote_from_dp8_url evt.payload })
      → C e
      → C (apply_kind evt e)
  unfolding apply_kind
  apply_kind-cases created destroyed indicated other =
      elim (Bool-cases (eqb evt.msg_id create_player)) [
        | inl k ↦ rw k created
        | inr n1 ↦ rw n1 (elim (Bool-cases (eqb evt.msg_id destroy_player)) [
          | inl k ↦ rw k (destroyed k)
          | inr n2 ↦
              rw n2
                (elim (Bool-cases (eqb evt.msg_id indicate_connect && not (is_empty evt.payload))) [
                  | inl k ↦ rw k indicated
                  | inr n3 ↦ rw n3 other
                ])
        ])
      ]

  -- A payload is passed over, or it is a message and it is answered.
  pub apply_message-cases :
      C e
      → ((m : Msg) → parse evt.payload ≡ some m → C (answer evt (some m) e))
      → C (apply_message evt e)
  unfolding apply_message
  apply_message-cases passed answered = elim (Bool-cases (starts_with_byte b'<' evt.payload)) [
    | inr k ↦ rw k passed
    | inl markup ↦ rw markup (elim (Bool-cases (drops e.proto.players evt.dpnid)) [
      | inl k ↦ rw k passed
      | inr kept ↦ rw kept (elim (Option-cases (parse evt.payload)) [
        | inl failed ↦ rw failed passed
        | inr (m, parsed) ↦ rw parsed (answered m parsed)
      ])
    ])
  ]
