-- ===== src/Workflow/Schedule.antt =====
-- The scheduler's loop: it ends, and what every step has become when it does.
use mathlib.Core.Path.{fun_ext}
use evoclaw.Base.{
  ℕ, zero, suc, ◌≤◌, ◌<◌, String, Bool, true, false, ◌≡◌, refl, sym, subst, ◌∙◌, ◌⊎◌, inl, inr,
  Option, none, some, List, [], ◌∷◌, if_neg, arith, string_discrete, length, member, Distinct,
  Bool-cases, member_self, member_later, apart,
}
use evoclaw.Base.Dict.{Dict, get, set}
use evoclaw.Workflow.{
  WorkflowStep, pending, success, failed, Attempt, is_ready, select_ready, minus, set_status,
  mark_blocked, fail_all, deadlock, Ending, finished, aborted, run_step, run_ready, end_round,
  schedule,
}
use evoclaw.Workflow.Sets.{
  without, without_all, among, without_all-absent, without_all-present, without_all-none,
  member-minus, length-minus-le, length-minus-lt, Distinct-minus, select_ready-among,
  Distinct-select_ready,
}
use evoclaw.Workflow.Attempts.{Ended, first_return, run_step-Ended}
use evoclaw.Workflow.Rounds.{Inv, AllReady, settle_one, is_ready-set, Marked, mark_blocked-Marked}

module _ {V : Type 0} where
  Inv-ext :
      (steps : Dict (WorkflowStep V)) (t u : String → Bool)
      → ((k : String) → t k ≡ u k)
      → Inv steps t
      → Inv steps u
  Inv-ext steps t u h = subst (Inv steps) (fun_ext h)

  fail_all-Inv :
      (ns : List String) (steps : Dict (WorkflowStep V)) (todo : String → Bool)
      → Distinct ns
      → ((k : String) → member k ns ≡ true → todo k ≡ true)
      → Inv steps todo
      → Inv (fail_all steps ns) (without_all ns todo)
  unfolding fail_all set_status
  fail_all-Inv [] steps todo d all v = v
  fail_all-Inv (n ∷ ns) steps todo d all v =
      let (s, found, open_) = v.fresh n (all n (member_self n ns)) in
      fail_all-Inv ns (set_status n failed (some deadlock) steps) (without n todo) d.1
        (λ k h.
          if_neg (string_discrete n k) (apart ns n k d.0 h) _ _ ∙ all k (member_later n k ns h))
        (rw (found, set_status)
          (settle_one steps todo n s _ found open_ refl (λ e. cc) (λ e. cc) (λ e. cc) (λ e. cc) v))

  module _ (attempt : String → ℕ → Dict V → Attempt V) (size : V → ℕ) (truncated : V → V) where
    run_one-Inv :
        (steps : Dict (WorkflowStep V)) (todo : String → Bool) (context : Dict V) (n : String)
        (s : WorkflowStep V)
        → get n steps ≡ some s
        → s.status ≡ pending
        → is_ready steps n ≡ true
        → Inv steps todo
        → Inv (set n (run_step attempt size truncated n context s) steps) (without n todo)
    unfolding is_ready
    run_one-Inv steps todo context n s found open_ ready v =
        elim (ended (first_return attempt size truncated n context 0 s.retries)
          (run_step-Ended attempt size truncated n context s)) [
            | inl (ok, same) ↦
                settle_one steps todo n s _ found open_ same (λ e. cc) (λ e. cc)
                  (λ _. rw (found, is_ready) at ready) (λ e. cc) v
            | inr (bad, same) ↦
                settle_one steps todo n s _ found open_ same (λ e. cc) (λ e. cc) (λ e. cc) (λ e. cc)
                  v
          ]
      where
        r : WorkflowStep V
        r = run_step attempt size truncated n context s

        ended :
            (o : Option V)
            → Ended attempt size truncated s r o
            → (r.status ≡ success) × (r.depends_on ≡ s.depends_on)
              ⊎ (r.status ≡ failed) × (r.depends_on ≡ s.depends_on)
        ended none h = inr (h.0, h.2)
        ended (some x) h = inl (h.0, h.2)

    run_ready-Inv :
        (ns : List String) (steps : Dict (WorkflowStep V)) (todo : String → Bool) (context : Dict V)
        → Distinct ns
        → AllReady steps todo ns
        → Inv steps todo
        → Inv (run_ready attempt size truncated steps context ns).0 (without_all ns todo)
    unfolding run_ready
    run_ready-Inv [] steps todo context d all v = v
    run_ready-Inv (n ∷ ns) steps todo context d all v =
        let (here, ready) = all n (member_self n ns) in
        let (s, found, open_) = v.fresh n here in
        rw (found, run_ready)
          (run_ready-Inv ns (set n (run_step attempt size truncated n context s) steps)
            (without n todo) context d.1
            (λ k h.
              let other = apart ns n k d.0 h in
              let (todo_k, ready_k) = all k (member_later n k ns h) in
              (
                if_neg (string_discrete n k) other _ _ ∙ todo_k,
                is_ready-set steps n k s _ found open_ other ready_k,
              ))
            (run_one-Inv steps todo context n s found open_ ready v))

nothing_left : (ns : List String) (k : String) → without_all ns (among ns) k ≡ false
nothing_left ns k = elim (Bool-cases (member k ns)) [
  | inl inside ↦ without_all-present ns (among ns) k inside
  | inr outside ↦ without_all-none ns (among ns) k outside
]

minus-among :
    (ys xs : List String) (k : String) → member k (minus xs ys) ≡ true → member k xs ≡ true
minus-among ys xs k h = elim (Bool-cases (member k xs)) [
  | inl inside ↦ inside
  | inr outside ↦ cc (member-minus ys xs k, without_all-none ys (among xs) k outside)
]

-- One round, up to the start of the ready steps.
module _ {V : Type 0} (steps : Dict (WorkflowStep V)) (remaining : List String)
    (d : Distinct remaining) (v : Inv steps (among remaining)) where
  abbrev ready : List String
  ready = select_ready steps remaining

  abbrev others : List String
  others = minus remaining ready

  abbrev after : Dict (WorkflowStep V)
  after = (mark_blocked steps others).0

  abbrev left : List String
  left = minus remaining (mark_blocked steps others).1

  marked : Marked steps (among remaining) others (mark_blocked steps others)
  marked =
      mark_blocked-Marked others steps (among remaining) (Distinct-minus ready remaining d)
        (λ k h. minus-among ready remaining k h) v

  marked-Inv : Inv after (among left)
  marked-Inv =
      Inv-ext after _ (among left)
        (λ k. sym (member-minus (mark_blocked steps others).1 remaining k)) marked.inv

  ready-left : AllReady after (among left) ready
  ready-left k h =
      let (here, is_ok) = select_ready-among steps remaining k h in
      let outside : member k others ≡ false =
        member-minus ready remaining k ∙ without_all-present ready (among remaining) k h in
      (
        member-minus (mark_blocked steps others).1 remaining k
            ∙ without_all-absent (mark_blocked steps others).1 (among remaining) k
                (marked.looked_at k outside)
            ∙ here,
        marked.kept k outside is_ok,
      )

module _ {V : Type 0} (attempt : String → ℕ → Dict V → Attempt V) (size : V → ℕ)
    (truncated : V → V) where
  abbrev Next : Type 0
  Next =
      Dict (WorkflowStep V)
      → Dict V
      → List String
      → Option (Ending (Dict (WorkflowStep V) × Dict V))

  module _ (copyable : Dict V → Bool) where
    -- The loop has ended, and no step is pending or running; or a context could not be copied.
    abbrev pub Ends : Option (Ending (Dict (WorkflowStep V) × Dict V)) → Type 0
    Ends o =
        ((r : Dict (WorkflowStep V) × Dict V) × (o ≡ some (finished r)) × Inv r.0 (λ _. false))
        ⊎ ((context : Dict V) × (o ≡ some aborted) × (copyable context ≡ false))

    end_round-Ends :
        (next : Next) (fuel : ℕ)
        → ((steps : Dict (WorkflowStep V)) (context : Dict V) (remaining : List String)
            → length remaining < fuel
            → Distinct remaining
            → Inv steps (among remaining)
            → Ends (next steps context remaining))
        → (steps : Dict (WorkflowStep V)) (context : Dict V) (left ns : List String)
        → length left ≤ fuel
        → Distinct left
        → Distinct ns
        → AllReady steps (among left) ns
        → Inv steps (among left)
        → Ends (end_round attempt size truncated copyable next steps context left ns)
    unfolding end_round
    end_round-Ends next fuel ih steps context left [] h d dn all v = inl (
      (fail_all steps left, context),
      refl,
      Inv-ext _ _ _ (nothing_left left) (fail_all-Inv left steps (among left) d (λ k e. e) v),
    )
    end_round-Ends next fuel ih steps context left (r ∷ rs) h d dn all v =
        elim (Bool-cases (copyable context)) [
          | inr stuck ↦ inr (context, rw (stuck, end_round) refl, stuck)
          | inl copied ↦
              rw (copied, end_round)
                (ih _ _ (minus left (r ∷ rs))
                  (omega (arith, length-minus-lt r rs left (all r (member_self r rs)).0))
                  (Distinct-minus (r ∷ rs) left d)
                  (Inv-ext _ _ _ (λ k. sym (member-minus (r ∷ rs) left k))
                    (run_ready-Inv attempt size truncated (r ∷ rs) steps (among left) context dn all
                      v)))
        ]

    pub schedule-Ends :
        (fuel : ℕ) (steps : Dict (WorkflowStep V)) (context : Dict V) (remaining : List String)
        → length remaining < fuel
        → Distinct remaining
        → Inv steps (among remaining)
        → Ends (schedule attempt size truncated copyable fuel steps context remaining)
    unfolding schedule
    schedule-Ends zero steps context remaining h d v = absurd (omega arith)
    schedule-Ends (suc fuel) steps context [] h d v =
        inl ((steps, context), refl, Inv-ext steps _ _ (nothing_left []) v)
    schedule-Ends (suc fuel) steps context (m ∷ ms) h d v =
        end_round-Ends (schedule attempt size truncated copyable fuel) fuel (schedule-Ends fuel) _
          context _ _
          (omega
            (arith, length-minus-le (mark_blocked steps (others steps (m ∷ ms) d v)).1 (m ∷ ms)))
          (Distinct-minus (mark_blocked steps (others steps (m ∷ ms) d v)).1 (m ∷ ms) d)
          (Distinct-select_ready steps (m ∷ ms) d) (ready-left steps (m ∷ ms) d v)
          (marked-Inv steps (m ∷ ms) d v)
