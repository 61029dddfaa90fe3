-- ===== src/Workflow/Rounds.antt =====
-- What holds between the rounds of the scheduler: a step is pending exactly as long as it is among
-- the remaining ones, a success rests on successes, and a skipped step on a failed or skipped one.
use evoclaw.Base.{
  String, Bool, true, false, ◌≡◌, refl, ◌≢◌, some, List, [], ◌∷◌, arith, string_discrete, member,
  Distinct, Bool-cases, Option-cases, inl, inr, member_self, member_later, apart, not_member_cons,
  not_member_of, ap, sym, ◌∙◌, if_pos, if_neg,
}
use mathlib.Core.Bool.{false≢true}
use evoclaw.Base.Dict.{Dict, get, set, get-set, get-set_cases, get-set_ne}
use evoclaw.Workflow.Sets.{without, without_all}
use evoclaw.Workflow.{
  WorkflowStep, pending, running, success, skipped, is_success, blocks, dep_ok, deps_ok, dep_blocks,
  deps_block, is_ready, is_blocked, skip, mark_blocked,
}

module _ {V : Type 0} where
  pub record Inv (steps : Dict (WorkflowStep V)) (todo : String → Bool) : Type 0 where
    pub still_open :
        (n : String) (s : WorkflowStep V)
        → get n steps ≡ some s
        → s.status ≡ pending
        → todo n ≡ true
    pub fresh :
        (n : String)
        → todo n ≡ true
        → (s : WorkflowStep V) × (get n steps ≡ some s) × (s.status ≡ pending)
    pub sound :
        (n : String) (s : WorkflowStep V)
        → get n steps ≡ some s
        → s.status ≡ success
        → deps_ok steps s.depends_on ≡ true
    pub blamed :
        (n : String) (s : WorkflowStep V)
        → get n steps ≡ some s
        → s.status ≡ skipped
        → deps_block steps s.depends_on ≡ true
    pub ended : (n : String) (s : WorkflowStep V) → get n steps ≡ some s → s.status ≢ running

  -- A pending step is written: what was settled before stays as it was.
  module _ (steps : Dict (WorkflowStep V)) (n : String) (s s' : WorkflowStep V)
      (found : get n steps ≡ some s) (open_ : s.status ≡ pending) where
    dep_ok-set : (d : String) → dep_ok steps d ≡ true → dep_ok (set n s' steps) d ≡ true
    unfolding dep_ok is_success
    dep_ok-set d h = ground (arith, found, open_, h, get-set n d s' steps, string_discrete n d)

    pub deps_ok-set :
        (ds : List String) → deps_ok steps ds ≡ true → deps_ok (set n s' steps) ds ≡ true
    unfolding deps_ok
    deps_ok-set [] h = refl
    deps_ok-set (d ∷ ds) h = ground (arith, h, dep_ok-set d, deps_ok-set ds)

    dep_blocks-set : (d : String) → dep_blocks steps d ≡ true → dep_blocks (set n s' steps) d ≡ true
    unfolding dep_blocks blocks
    dep_blocks-set d h = ground (arith, found, open_, h, get-set n d s' steps, string_discrete n d)

    pub deps_block-set :
        (ds : List String) → deps_block steps ds ≡ true → deps_block (set n s' steps) ds ≡ true
    unfolding deps_block
    deps_block-set [] h = cc
    deps_block-set (d ∷ ds) h = ground (arith, h, dep_blocks-set d, deps_block-set ds)

  pub settle_one :
      (steps : Dict (WorkflowStep V)) (todo : String → Bool) (n : String) (s s' : WorkflowStep V)
      → get n steps ≡ some s
      → s.status ≡ pending
      → s'.depends_on ≡ s.depends_on
      → s'.status ≢ pending
      → s'.status ≢ running
      → (s'.status ≡ success → deps_ok steps s.depends_on ≡ true)
      → (s'.status ≡ skipped → deps_block steps s.depends_on ≡ true)
      → Inv steps todo
      → Inv (set n s' steps) (without n todo)
  settle_one steps todo n s s' found open_ same not_open not_running ok blame v = record {
    still_open = λ k r e p. elim (get-set_cases n k s' r steps e) [
      | inl (_, new) ↦ absurd (not_open (ap (λ x. x.status) (sym new) ∙ p))
      | inr (other, old) ↦ if_neg (string_discrete n k) other _ _ ∙ v.still_open k r old p
    ];
    fresh = λ k h. elim (string_discrete n k) [
      | yes e ↦ absurd (false≢true (sym (if_pos (string_discrete n k) e _ _) ∙ h))
      | no e ↦
          let (r, there, p) = v.fresh k (sym (if_neg (string_discrete n k) e _ _) ∙ h) in
          (r, get-set_ne n k s' steps e ∙ there, p)
    ];
    sound = λ k r e p.
        deps_ok-set steps n s s' found open_ _ (elim (get-set_cases n k s' r steps e) [
          | inl (_, new) ↦ rw (new, same) (ok (ap (λ x. x.status) (sym new) ∙ p))
          | inr (_, old) ↦ v.sound k r old p
        ]);
    blamed = λ k r e p.
        deps_block-set steps n s s' found open_ _ (elim (get-set_cases n k s' r steps e) [
          | inl (_, new) ↦ rw (new, same) (blame (ap (λ x. x.status) (sym new) ∙ p))
          | inr (_, old) ↦ v.blamed k r old p
        ]);
    ended = λ k r e. elim (get-set_cases n k s' r steps e) [
      | inl (_, new) ↦ λ p. not_running (ap (λ x. x.status) (sym new) ∙ p)
      | inr (_, old) ↦ v.ended k r old
    ];
  }

  -- Readiness is kept when another step is settled.
  pub is_ready-set :
      (steps : Dict (WorkflowStep V)) (n k : String) (s s' : WorkflowStep V)
      → get n steps ≡ some s
      → s.status ≡ pending
      → n ≢ k
      → is_ready steps k ≡ true
      → is_ready (set n s' steps) k ≡ true
  unfolding is_ready
  is_ready-set steps n k s s' found open_ other ready = elim (Option-cases (get k steps)) [
    | inl missing ↦ cc (rw (missing, is_ready) at ready)
    | inr (r, there) ↦
        rw (get-set_ne n k s' steps other, there, is_ready)
          (deps_ok-set steps n s s' found open_ r.depends_on (rw (there, is_ready) at ready))
  ]

  -- Of the steps to do, all that are among `ns` are ready.
  abbrev pub AllReady : Dict (WorkflowStep V) → (String → Bool) → List String → Type 0
  AllReady steps todo ns =
      (k : String) → member k ns ≡ true → (todo k ≡ true) × (is_ready steps k ≡ true)

  -- What is left of a step that is skipped.
  skip-Inv :
      (steps : Dict (WorkflowStep V)) (todo : String → Bool) (n : String)
      → todo n ≡ true
      → is_blocked steps n ≡ true
      → Inv steps todo
      → Inv (skip n steps) (without n todo)
  unfolding skip is_blocked
  skip-Inv steps todo n here blocked v =
      let (s, found, open_) = v.fresh n here in
      rw (found, skip)
        (settle_one steps todo n s (record s { status = skipped }) found open_ refl (λ e. cc)
          (λ e. cc) (λ e. cc) (λ _. rw (found, is_blocked) at blocked) v)

  skip-ready :
      (steps : Dict (WorkflowStep V)) (todo : String → Bool) (n k : String)
      → todo n ≡ true
      → Inv steps todo
      → n ≢ k
      → is_ready steps k ≡ true
      → is_ready (skip n steps) k ≡ true
  unfolding skip
  skip-ready steps todo n k here v other ready =
      let (s, found, open_) = v.fresh n here in
      rw (found, skip) (is_ready-set steps n k s _ found open_ other ready)

  -- The steps marked by a round are among those looked at; the invariant and the readiness of the
  -- other steps are kept.
  pub record Marked (steps : Dict (WorkflowStep V)) (todo : String → Bool) (ns : List String)
      (r : Dict (WorkflowStep V) × List String) : Type 0 where
    pub inv : Inv r.0 (without_all r.1 todo)
    pub looked_at : (k : String) → member k ns ≡ false → member k r.1 ≡ false
    pub kept : (k : String) → member k ns ≡ false → is_ready steps k ≡ true → is_ready r.0 k ≡ true

  pub mark_blocked-Marked :
      (ns : List String) (steps : Dict (WorkflowStep V)) (todo : String → Bool)
      → Distinct ns
      → ((k : String) → member k ns ≡ true → todo k ≡ true)
      → Inv steps todo
      → Marked steps todo ns (mark_blocked steps ns)
  unfolding mark_blocked
  mark_blocked-Marked [] steps todo d all v = record {
    inv = v;
    looked_at = λ k h. h;
    kept = λ k _ h. h;
  }
  mark_blocked-Marked (n ∷ ns) steps todo d all v = elim (Bool-cases (is_blocked steps n)) [
    | inl blocked ↦
        let here : todo n ≡ true = all n (member_self n ns) in
        let m =
          mark_blocked-Marked ns (skip n steps) (without n todo) d.1
            (λ k h.
              if_neg (string_discrete n k) (apart ns n k d.0 h) _ _ ∙ all k (member_later n k ns h))
            (skip-Inv steps todo n here blocked v) in
        rw (blocked, mark_blocked)
          (record {
            inv = m.inv;
            looked_at = λ k h.
                let (no_head, no_tail) = not_member_cons n k ns h in
                not_member_of n k _ no_head (m.looked_at k no_tail);
            kept = λ k h ready.
                let (no_head, no_tail) = not_member_cons n k ns h in
                m.kept k no_tail (skip-ready steps todo n k here v no_head ready);
          })
    | inr free ↦
        let m = mark_blocked-Marked ns steps todo d.1 (λ k h. all k (member_later n k ns h)) v in
        rw (free, mark_blocked)
          (record {
            inv = m.inv;
            looked_at = λ k h. m.looked_at k (not_member_cons n k ns h).1;
            kept = λ k h. m.kept k (not_member_cons n k ns h).1;
          })
  ]
