-- ===== src/Rbac/Coherence.antt =====
-- The caches hold what the table says, after any sequence of calls.
use evoclaw.Base.{
  ℕ, ◌+◌, String, Bool, ◌≡◌, refl, ◌≢◌, ◌||◌, Option, none, some, List, [], ◌∷◌, arith,
  string_discrete, Bool-cases, inl, inr, Option-cases, ltb, if_elim, ap, ◌∙◌,
}
use evoclaw.Base.Dict.{Dict, get, remove, get-set, get-remove}
use evoclaw.Rbac.{
  Role, Permission, Grant, RbacStore, init, role_value, cache_ttl, delete_row, select_roles,
  any_has, no_rows, invalidate_cache, grant, revoke, get_cached_roles, oldest_key, evict,
  set_cached_roles, get_roles, is_empty, has_permission,
}
use evoclaw.Rbac.Rows.{parse_role-role_value, select_roles-delete_row_ne, select_roles-snoc}

pub record Coherent (s : RbacStore) : Type 0 where
  pub roles_ok :
      (k : String) (rs : List Role) (t : ℕ)
      → get k s.role_cache ≡ some (rs, t)
      → rs ≡ select_roles k s.grants
  pub empty_ok : (b : Bool) (t : ℕ) → s.empty_cache ≡ some (b, t) → b ≡ no_rows s.grants

-- The answers of a store without caches.
unfoldable pub allowed : List Grant → String → Permission → Bool
allowed gs k p = no_rows gs || any_has (select_roles k gs) p

pub init-Coherent : Coherent init
unfolding get
init-Coherent = record { roles_ok = λ k rs t e. cc; empty_ok = λ b t e. cc }

-- A change of the rows of one subject, followed by the invalidation.
invalidate-Coherent :
    (s : RbacStore) (gs : List Grant) (j : String)
    → ((k : String) → j ≢ k → select_roles k gs ≡ select_roles k s.grants)
    → Coherent s
    → Coherent (invalidate_cache (record s { grants = gs }) j)
unfolding invalidate_cache
invalidate-Coherent s gs j same c = record {
  roles_ok = λ k rs t e. elim (string_discrete j k) [
    | yes p ↦ ground (arith, get-remove j k s.role_cache, e)
    | no n ↦
        ground
          (arith, get-remove j k s.role_cache, e, same k n, c.roles_ok k rs t, string_discrete j k)
  ];
  empty_ok = λ b t e. cc;
}

pub grant-Coherent :
    (s : RbacStore) (j : String) (r : Role) (by : Option String) (now : ℕ)
    → Coherent s
    → Coherent (grant s j r by now)
unfolding grant
grant-Coherent s j r by now c =
    invalidate-Coherent s _ j
      (λ k n. ground (
        arith,
        select_roles-snoc k
            (record { subject_id = j; role = role_value r; granted_by = by; granted_at = now }) r
            (delete_row j (role_value r) s.grants) (parse_role-role_value r),
        select_roles-delete_row_ne k j (role_value r) s.grants n,
      ))
      c

pub revoke-Coherent : (s : RbacStore) (j : String) (r : Role) → Coherent s → Coherent (revoke s j r)
unfolding revoke
revoke-Coherent s j r c =
    invalidate-Coherent s _ j (λ k n. select_roles-delete_row_ne k j (role_value r) s.grants n) c

-- Eviction only forgets.
get-evict :
    (k : String) (d : Dict (List Role × ℕ)) (x : List Role × ℕ)
    → get k (evict d) ≡ some x
    → get k d ≡ some x
unfolding evict
get-evict k d x e = elim (Option-cases (oldest_key d)) [
  | inl nothing ↦ ground (arith, nothing, e)
  | inr ((j, t), found) ↦ ground (arith, found, e, get-remove j k d)
]

set_cached-Coherent :
    (s : RbacStore) (j : String) (now : ℕ)
    → Coherent s
    → Coherent (set_cached_roles s j (select_roles j s.grants) now)
unfolding set_cached_roles
set_cached-Coherent s j now c = record {
  roles_ok = λ k rs t e. ground (
    arith,
    e,
    get-set j k (select_roles j s.grants, now) (evict s.role_cache),
    get-evict k s.role_cache (rs, t),
    c.roles_ok k rs t,
  );
  empty_ok = c.empty_ok;
}

-- A store that answers a query by `answer` and stays coherent, over the same rows.
abbrev pub Answers {ℓ} : {A : Type ℓ} → RbacStore → A → RbacStore × A → Type ℓ
Answers s answer r = (r.1 ≡ answer) × Coherent r.0 × (r.0.grants ≡ s.grants)

expire-Coherent :
    (s : RbacStore) (j : String)
    → Coherent s
    → Coherent (record s { role_cache = remove j s.role_cache })
expire-Coherent s j c = record {
  roles_ok = λ k rs t e. ground (arith, e, get-remove j k s.role_cache, c.roles_ok k rs t);
  empty_ok = c.empty_ok;
}

-- A cached answer is the table's.
abbrev CacheAnswers : RbacStore → String → RbacStore × Option (List Role) → Type 0
CacheAnswers s j r =
    Coherent r.0
    × (r.0.grants ≡ s.grants)
    × ((rs : List Role) → r.1 ≡ some rs → rs ≡ select_roles j s.grants)

get_cached_roles-Answers :
    (s : RbacStore) (j : String) (now : ℕ)
    → Coherent s
    → CacheAnswers s j (get_cached_roles s j now)
unfolding get_cached_roles
get_cached_roles-Answers s j now c = elim (Option-cases (get j s.role_cache)) [
  | inl missing ↦ rw (missing, get_cached_roles) (c, refl, λ rs e. cc)
  | inr ((rs, t), found) ↦
      rw (found, get_cached_roles)
        (if_elim (CacheAnswers s j) (ltb now (t + cache_ttl)) _ _
          (λ _. (c, refl, λ rs' e. cc (c.roles_ok j rs t found)))
          λ _. (expire-Coherent s j c, refl, λ rs' e. cc))
]

pub get_roles-Answers :
    (s : RbacStore) (j : String) (now : ℕ)
    → Coherent s
    → Answers s (select_roles j s.grants) (get_roles s j now)
unfolding get_roles set_cached_roles
get_roles-Answers s j now c =
    let (coherent, same, cached) = get_cached_roles-Answers s j now c in
    elim (Option-cases (get_cached_roles s j now).1) [
      | inl missing ↦
          rw (missing, get_roles)
            (ap (select_roles j) same, set_cached-Coherent _ j now coherent, same)
      | inr (rs, found) ↦ rw (found, get_roles) (cached rs found, coherent, same)
    ]

is_empty-Answers :
    (s : RbacStore) (now : ℕ) → Coherent s → Answers s (no_rows s.grants) (is_empty s now)
unfolding is_empty
is_empty-Answers s now c = elim (Option-cases s.empty_cache) [
  | inl missing ↦ rw (missing, is_empty) (refl, counted, refl)
  | inr ((b, t), found) ↦ elim (Bool-cases (ltb now (t + cache_ttl))) [
    | inl valid ↦ rw (found, is_empty) (rw (valid, is_empty) (c.empty_ok b t found, c, refl))
    | inr expired ↦ rw (found, is_empty) (rw (expired, is_empty) (refl, counted, refl))
  ]
]
  where
    counted : Coherent (record s { empty_cache = some (no_rows s.grants, now) })
    counted = record { roles_ok = c.roles_ok; empty_ok = λ b t e. ground (arith, e) }

-- On coherent caches the answer is that of the table.
pub has_permission-Answers :
    (s : RbacStore) (j : String) (p : Permission) (now later : ℕ)
    → Coherent s
    → Answers s (allowed s.grants j p) (has_permission s j p now later)
unfolding has_permission allowed
has_permission-Answers s j p now later c =
    let (empty, coherent, same) = is_empty-Answers s now c in
    let (roles, coherent', same') = get_roles-Answers (is_empty s now).0 j later coherent in
    elim (Bool-cases (is_empty s now).1) [
      | inl open_store ↦
          rw (open_store, has_permission) (ground (arith, empty, open_store), coherent, same)
      | inr closed ↦
          rw (closed, has_permission)
            (ground (arith, empty, closed, roles, same), coherent', same' ∙ same)
    ]

pub data Op : Type 0 where
  grants : String → Role → Option String → ℕ → Op
  revokes : String → Role → Op
  asks : String → Permission → ℕ → ℕ → Op

-- The answers to the queries of a sequence of calls.
unfoldable pub run : RbacStore → List Op → List Bool
run s [] = []
run s (grants j r by now ∷ ops) = run (grant s j r by now) ops
run s (revokes j r ∷ ops) = run (revoke s j r) ops
run s (asks j p now later ∷ ops) =
    let (s', answer) = has_permission s j p now later in answer ∷ run s' ops

-- The same, of a store that has no cache.
pub run_table : List Grant → List Op → List Bool
unfolding allowed
run_table gs [] = []
run_table gs (grants j r by now ∷ ops) =
    run_table
      (grant (record { grants = gs; role_cache = []; empty_cache = none }) j r by now).grants ops
run_table gs (revokes j r ∷ ops) =
    run_table (revoke (record { grants = gs; role_cache = []; empty_cache = none }) j r).grants ops
run_table gs (asks j p now later ∷ ops) = allowed gs j p ∷ run_table gs ops

run-run_table : (ops : List Op) (s : RbacStore) → Coherent s → run s ops ≡ run_table s.grants ops
unfolding run run_table grant revoke invalidate_cache
run-run_table [] s c = refl
run-run_table (grants j r by now ∷ ops) s c =
    run-run_table ops (grant s j r by now) (grant-Coherent s j r by now c)
run-run_table (revokes j r ∷ ops) s c = run-run_table ops (revoke s j r) (revoke-Coherent s j r c)
run-run_table (asks j p now later ∷ ops) s c =
    let (answer, coherent, same) = has_permission-Answers s j p now later c in
    ground (
      arith,
      answer,
      same,
      run-run_table ops (has_permission s j p now later).0 coherent,
      ap (λ gs. run_table gs ops) same,
    )

-- From a new store, whatever the calls and their times, every permission check answers as it would
-- with no cache, from the rows of the table alone: the caches never show.
pub run-init : (ops : List Op) → run init ops ≡ run_table [] ops
run-init ops = run-run_table ops init init-Coherent
