-- ===== src/LogBuffer/Polls.antt =====
-- host/log_buffer.py: what a reader gets that asks for the records after the last one it has seen.
use evoclaw.Base.{
  ℕ, zero, suc, ◌+◌, ◌-◌, ◌≤◌, max, min, String, ◌≡◌, refl, ap, ◌∙◌, sym, inl, inr, List, [], ◌∷◌,
  arith, length, drop, length-drop, if_pos, if_elim, ltb, Bool-cases, string_discrete,
}
use evoclaw.LogBuffer.{LogRecord, LogEntry, init, last, max_size, newer_than, get_logs}
use evoclaw.LogBuffer.Ring.{drop-drop, drop_nil, emit_all, numbered, emit_all-init}

length-numbered : (n : ℕ) (rs : List LogRecord) → length (numbered n rs) ≡ length rs
unfolding numbered
length-numbered n [] = refl
length-numbered n (r ∷ rs) = ap (λ k. suc k) (length-numbered (n + 1) rs)

drop-numbered :
    (k n : ℕ) (rs : List LogRecord) → drop k (numbered n rs) ≡ numbered (n + k) (drop k rs)
unfolding numbered
drop-numbered zero n rs = let same : n ≡ n + 0 = omega arith in ap (λ m. numbered m rs) same
drop-numbered (suc k) n [] = refl
drop-numbered (suc k) n (r ∷ rs) =
    let same : n + 1 + k ≡ n + suc k = omega arith in
    drop-numbered k (n + 1) rs ∙ ap (λ m. numbered m (drop k rs)) same

-- Numbers rise by one, so the newer records are all but the first ones.
newer_than-numbered :
    (since n : ℕ) (rs : List LogRecord)
    → newer_than since (numbered n rs) ≡ drop (since - n) (numbered n rs)
unfolding newer_than numbered
newer_than-numbered since n [] = sym (drop_nil (since - n))
newer_than-numbered since n (r ∷ rs) =
    let rest = newer_than-numbered since (n + 1) rs in
    elim (Bool-cases (ltb since (n + 1))) [
      | inl lt ↦
          let here : since - n ≡ 0 = ground (arith, lt) in
          let behind : since - (n + 1) ≡ 0 = omega (arith, here) in
          rw (lt, here)
            (ap (λ xs. record { idx = n + 1; entry = r } ∷ xs)
              (rest ∙ ap (λ k. drop k (numbered (n + 1) rs)) behind))
      | inr ge ↦
          let before : since - n ≡ suc (since - (n + 1)) = ground (arith, ge) in
          rw (ge, before) rest
    ]

module _ (rs : List LogRecord) where
  abbrev all_entries : List LogEntry
  all_entries = numbered 0 rs

  abbrev dropped : ℕ
  dropped = length all_entries - max_size

  newer_than-buffer :
      (since : ℕ)
      → newer_than since (emit_all init rs).buffer ≡ drop (dropped + (since - dropped)) all_entries
  unfolding last
  newer_than-buffer since =
      let plain : 0 + dropped ≡ dropped = omega arith in
      ap (newer_than since) (emit_all-init rs ∙ drop-numbered dropped 0 rs)
      ∙ newer_than-numbered since (0 + dropped) (drop dropped rs)
      ∙ ap (λ xs. drop (since - (0 + dropped)) xs) (sym (drop-numbered dropped 0 rs))
      ∙ drop-drop dropped (since - (0 + dropped)) all_entries
      ∙ ap (λ z. drop (dropped + (since - z)) all_entries) plain

  last-drop :
      (c since : ℕ)
      → c ≤ max_size
      → last c (drop (dropped + (since - dropped)) all_entries) ≡ last c (drop since all_entries)
  unfolding last
  last-drop c since small =
      let m = dropped + (since - dropped) in
      let left = length (drop m all_entries) - c in
      let right = length (drop since all_entries) - c in
      let same : m + left ≡ since + right =
        omega (arith, small, length-drop m all_entries, length-drop since all_entries) in
      drop-drop m left all_entries
      ∙ ap (λ k. drop k all_entries) same
      ∙ sym (drop-drop since right all_entries)

  -- After any records, a poll without a level gets the last records among those whose numbers are
  -- greater than the one asked for: as many as the limit says, at least one and at most 2000.
  pub get_logs-polls :
      (upper : String → String) (since limit : ℕ)
      → get_logs upper (emit_all init rs) since "" limit
        ≡ last (max 1 (min limit max_size)) (drop since all_entries)
  unfolding get_logs
  get_logs-polls upper since limit =
      let c = max 1 (min limit max_size) in
      let small : c ≤ max_size = omega arith in
      let buffer = (emit_all init rs).buffer in
      ap (last c) (if_pos (string_discrete "" "") refl _ _)
      ∙ ap (last c) (
          if_elim (λ items. items ≡ drop (dropped + (since - dropped)) all_entries) (ltb 0 since)
            (newer_than since buffer) buffer (λ _. newer_than-buffer since)
            λ old.
              let all_kept : dropped + (since - dropped) ≡ dropped = ground (arith, old) in
              emit_all-init rs ∙ (unfold last in ap (λ k. drop k all_entries) (sym all_kept)))
      ∙ last-drop c since small
