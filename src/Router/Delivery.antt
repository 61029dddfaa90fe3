-- ===== src/Router/Delivery.antt =====
-- host/router.py: `route_outbound` sends the chunks in order, up to the first that fails.
use evoclaw.Base.{
  ℕ, zero, suc, ◌+◌, Bool, ◌≡◌, refl, ap, Option, none, some, List, [], ◌∷◌, ◌++◌, inl, inr, arith,
  length, drop, Bool-cases,
}
use evoclaw.Router.{Text, Notice, undelivered, failed, chunk_max_retries, try_send, send_chunks}

-- The notice for a number of chunks that the user has not got.
unfoldable pub notice_for : ℕ → Option Notice
notice_for zero = none
notice_for (suc zero) = some failed
notice_for (suc (suc n)) = some (undelivered (suc n))

stopped :
    (rest : List Text)
    → elim rest [ [] ↦ some failed | _ ∷ more ↦ some (undelivered (length more + 1)) ]
      ≡ notice_for (suc (length rest))
unfolding notice_for
stopped [] = refl
stopped (_ ∷ more) = ground arith

-- Whichever attempts succeed: the chunks that are sent are the first ones, and the notice follows
-- from the number of the others. When two or more are not delivered, it counts one too few.
pub send_chunks-prefix :
    (sends : ℕ → ℕ → Bool) (i : ℕ) (chunks : List Text)
    → let (sent, notice) = send_chunks sends i chunks in
      let others = drop (length sent) chunks in
      (sent ++ others ≡ chunks) × (notice ≡ notice_for (length others))
unfolding send_chunks notice_for
send_chunks-prefix sends i [] = (refl, refl)
send_chunks-prefix sends i (chunk ∷ chunks) =
    elim (Bool-cases (try_send sends i 0 chunk_max_retries)) [
      | inl ok ↦
          rw ok (
            let (e, n) = send_chunks-prefix sends (i + 1) chunks in
            (ap (λ rest. chunk ∷ rest) e, n))
      | inr not_ok ↦ rw not_ok (refl, stopped chunks)
    ]
