-- ===== src/LogBuffer/Ring.antt =====
-- host/log_buffer.py: the buffer holds the last records, numbered in the order of their coming.
use evoclaw.Base.{
  ℕ, zero, suc, ◌+◌, ◌-◌, ◌≤◌, ◌≡◌, refl, ap, ◌∙◌, sym, List, [], ◌∷◌, ◌++◌, arith, length, drop,
  length-append, length-drop,
}
use evoclaw.LogBuffer.{LogRecord, LogEntry, LogBuffer, init, last, emit, max_size}

drop-append {ℓ} :
    {A : Type ℓ} (k : ℕ) (xs ys : List A) → k ≤ length xs → drop k (xs ++ ys) ≡ drop k xs ++ ys
drop-append zero xs ys h = refl
drop-append (suc k) [] ys h = absurd (omega arith)
drop-append (suc k) (x ∷ xs) ys h = drop-append k xs ys (omega arith)

pub drop_nil {ℓ} : {A : Type ℓ} (n : ℕ) → drop {A = A} n [] ≡ []
drop_nil zero = refl
drop_nil (suc n) = refl

pub drop-drop {ℓ} : {A : Type ℓ} (k j : ℕ) (xs : List A) → drop j (drop k xs) ≡ drop (k + j) xs
drop-drop zero j xs = ap (λ n. drop n xs) (omega arith)
drop-drop {A = A} (suc k) j [] = drop_nil {A = A} j ∙ sym (drop_nil {A = A} (suc k + j))
drop-drop (suc k) j (x ∷ xs) =
    let moved : suc (k + j) ≡ suc k + j = omega arith in
    drop-drop k j xs ∙ ap (λ n. drop n (x ∷ xs)) moved

-- To keep the last elements after each addition is to keep the last ones of all.
last-append_last {ℓ} :
    {A : Type ℓ} (n : ℕ) (xs : List A) (x : A)
    → last n (last n xs ++ x ∷ []) ≡ last n (xs ++ x ∷ [])
unfolding last
last-append_last n xs x =
    let k = length xs - n in
    let kept = drop k xs ++ x ∷ [] in
    ap (λ ys. drop (length kept - n) ys) (sym (drop-append k xs (x ∷ []) (omega arith)))
    ∙ drop-drop k (length kept - n) (xs ++ x ∷ [])
    ∙ ap (λ m. drop m (xs ++ x ∷ []))
        (omega
          (arith, length-append (drop k xs) (x ∷ []), length-drop k xs, length-append xs (x ∷ [])))

unfoldable pub emit_all : LogBuffer → List LogRecord → LogBuffer
emit_all b [] = b
emit_all b (r ∷ rs) = emit_all (emit b r) rs

-- The records, numbered from the one after `n`.
unfoldable pub numbered : ℕ → List LogRecord → List LogEntry
numbered n [] = []
numbered n (r ∷ rs) = record { idx = n + 1; entry = r } ∷ numbered (n + 1) rs

append_assoc {ℓ} :
    {A : Type ℓ} (xs : List A) (y : A) (ys : List A) → (xs ++ y ∷ []) ++ ys ≡ xs ++ (y ∷ ys)
append_assoc [] y ys = refl
append_assoc (x ∷ xs) y ys = ap (λ zs. x ∷ zs) (append_assoc xs y ys)

append_nil {ℓ} : {A : Type ℓ} (xs : List A) → xs ++ [] ≡ xs
append_nil [] = refl
append_nil (x ∷ xs) = ap (λ zs. x ∷ zs) (append_nil xs)

emit_all-last :
    (b : LogBuffer) (all : List LogEntry) (rs : List LogRecord)
    → b.buffer ≡ last max_size all
    → (emit_all b rs).buffer ≡ last max_size (all ++ numbered b.counter rs)
unfolding emit_all numbered emit
emit_all-last b all [] e = e ∙ ap (last max_size) (sym (append_nil all))
emit_all-last b all (r ∷ rs) e =
    let i : LogEntry = record { idx = b.counter + 1; entry = r } in
    emit_all-last (emit b r) (all ++ i ∷ []) rs
      (ap (λ xs. last max_size (xs ++ i ∷ [])) e ∙ last-append_last max_size all i)
    ∙ ap (last max_size) (append_assoc all i (numbered (b.counter + 1) rs))

-- After any records, the buffer holds the last 2000 of them, or all if they are fewer, in order,
-- each with its number in the order of coming.
pub emit_all-init :
    (rs : List LogRecord) → (emit_all init rs).buffer ≡ last max_size (numbered 0 rs)
emit_all-init rs = emit_all-last init [] rs (unfold last in refl)
