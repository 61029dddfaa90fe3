-- ===== src/BotRegistry/Nonce.antt =====
-- host/identity/bot_registry.py: what a nonce is good for.
use evoclaw.Base.{
  ℕ, ◌+◌, ◌≤◌, String, Bool, true, false, ◌≡◌, refl, ◌∙◌, inl, inr, Option, none, some, List, [],
  ◌∷◌, if◌then◌else◌, arith, Option-cases, Bool-cases,
}
use evoclaw.BotRegistry.{
  BotRegistry, Handshake, HandshakeStatus, completed, expired, is_pending, matches, settle_row,
  complete_handshake,
}

module _ (initiator target nonce : String) where
  -- The pending handshakes between the two with this nonce.
  unfoldable pub open_handshakes : List Handshake → ℕ
  open_handshakes [] = 0
  open_handshakes (h ∷ hs) =
      let rest = open_handshakes hs in if matches initiator target nonce h then rest + 1 else rest

  -- A row that was found is used up.
  used : Option Bool → ℕ
  used none = 0
  used (some _) = 1

  matches-settled :
      (h : Handshake) (status : HandshakeStatus) (at : Option ℕ)
      → is_pending status ≡ false
      → matches initiator target nonce (record h { status = status; completed_at = at }) ≡ false
  unfolding matches
  matches-settled h status at e = ground (arith, e)

  settle_row-uses :
      (now : ℕ) (hs : List Handshake)
      → open_handshakes (settle_row initiator target nonce now hs).0
          + used (settle_row initiator target nonce now hs).1
        ≡ open_handshakes hs
  unfolding settle_row open_handshakes used
  settle_row-uses now [] = refl
  settle_row-uses now (h ∷ hs) =
      let rest = settle_row-uses now hs in
      elim (Bool-cases (matches initiator target nonce h)) [
        | inr e ↦ ground (arith, e, rest)
        | inl e ↦
            unfold is_pending in
            ground (
              arith,
              e,
              matches-settled h expired h.completed_at refl,
              matches-settled h completed (some now) refl,
            )
      ]

  succeeded : Bool → ℕ
  succeeded true = 1
  succeeded false = 0

  complete-uses :
      (r : BotRegistry) (now : ℕ)
      → open_handshakes (complete_handshake r initiator target nonce now).0.handshakes
          + succeeded (complete_handshake r initiator target nonce now).1
        ≤ open_handshakes r.handshakes
  unfolding complete_handshake succeeded used
  complete-uses r now =
      let uses = settle_row-uses now r.handshakes in
      elim (Option-cases (settle_row initiator target nonce now r.handshakes).1) [
        | inl e ↦ ground (arith, e, uses)
        | inr (b, e) ↦ ground (arith, e, uses, Bool-cases b)
      ]

  complete-keeps_bots :
      (r : BotRegistry) (now : ℕ)
      → (complete_handshake r initiator target nonce now).1 ≡ false
      → (complete_handshake r initiator target nonce now).0.bots ≡ r.bots
  unfolding complete_handshake
  complete-keeps_bots r now h =
      elim (Option-cases (settle_row initiator target nonce now r.handshakes).1) [
        | inl e ↦ ground (arith, e)
        | inr (b, e) ↦ ground (arith, e, h, Bool-cases b)
      ]

  -- Attempts to complete the handshake, at these times; the number that succeeds.
  unfoldable pub attempts : BotRegistry → List ℕ → BotRegistry × ℕ
  attempts r [] = (r, 0)
  attempts r (now ∷ times) =
      let (r', ok) = complete_handshake r initiator target nonce now in
      let (r'', n) = attempts r' times in (r'', if ok then n + 1 else n)

  -- However often it is tried to complete a handshake, and whenever: at most as many attempts succeed
  -- as there are pending handshakes between the two bots with this nonce; and if none succeeds, the
  -- table of bots, with who is trusted, stays as it is.
  pub attempts-bounded :
      (r : BotRegistry) (times : List ℕ)
      → ((attempts r times).1 ≤ open_handshakes r.handshakes)
        × ((attempts r times).1 ≡ 0 → (attempts r times).0.bots ≡ r.bots)
  unfolding attempts succeeded
  attempts-bounded r [] = (omega arith, λ _. refl)
  attempts-bounded r (now ∷ times) =
      let r' = (complete_handshake r initiator target nonce now).0 in
      let uses = complete-uses r now in
      let (bound, same) = attempts-bounded r' times in
      elim (Bool-cases (complete_handshake r initiator target nonce now).1) [
        | inl e ↦ (ground (arith, e, uses, bound), λ z. absurd (ground (arith, e, z)))
        | inr e ↦ (
          ground (arith, e, uses, bound),
          λ z. same (ground (arith, e, z)) ∙ complete-keeps_bots r now e,
        )
      ]
