-- ===== src/Backup/Remapped.antt =====
-- skills_engine/path_remap.py: following a table of renamed files ends.
use evoclaw.Base.{
  ℕ, zero, suc, ◌+◌, ◌<◌, String, true, ◌≡◌, refl, ap, subst, ◌⊎◌, inl, inr, Option, none, some,
  List, [], ◌∷◌, string_discrete, member, Distinct, length, arith, Option-cases, Bool-cases,
}
use evoclaw.Base.Dict.{Dict, get, keys, member-keys_of_get}
use evoclaw.Base.Pigeonhole.{Distinct-within, length-keys}
use evoclaw.Backup.{follow, resolve_path_remap}

-- One step or more through the table.
pub data Leads (remap : Dict String) : String → String → Type 0 where
  one : {a b : String} → get a remap ≡ some b → Leads remap a b
  more : {a b c : String} → get a remap ≡ some b → Leads remap b c → Leads remap a c

one_more :
    (remap : Dict String) (a b c : String)
    → Leads remap a b
    → get b remap ≡ some c
    → Leads remap a c
one_more remap a b c (one e) h = more e (one h)
one_more remap a b c (more {b = d} e l) h = more e (one_more remap d b c l h)

-- The end is no renamed file, or the table leads from it back to it.
abbrev pub IsEnd : Dict String → String → Type 0
IsEnd remap r = (get r remap ≡ none) ⊎ Leads remap r r

abbrev pub Ends : Dict String → String → Option String → Type 0
Ends remap current o =
    (r : String) × (o ≡ some r) × ((current ≡ r) ⊎ Leads remap current r) × IsEnd remap r

step_before :
    (remap : Dict String) (current next : String) (o : Option String)
    → get current remap ≡ some next
    → Ends remap next o
    → Ends remap current o
step_before remap current next o h (r, e, inl same, end) =
    (r, e, inr (subst (Leads remap current) same (one h)), end)
step_before remap current next o h (r, e, inr l, end) = (r, e, inr (more h l), end)

follow-Ends :
    (fuel : ℕ) (remap : Dict String) (visited : List String) (current : String)
    → length remap < fuel + length visited
    → Distinct visited
    → ((k : String) → member k visited ≡ true → member k (keys remap) ≡ true)
    → ((k : String) → member k visited ≡ true → Leads remap k current)
    → Ends remap current (follow fuel remap visited current)
unfolding follow member
follow-Ends zero remap visited current enough d known behind =
    absurd (omega (arith, Distinct-within visited (keys remap) d known, length-keys remap))
follow-Ends (suc fuel) remap visited current enough d known behind =
    elim (Option-cases (get current remap)) [
      | inl e ↦ rw (e, follow) (current, refl, inl refl, inl e)
      | inr (next, e) ↦ elim (Bool-cases (member current visited)) [
        | inl seen ↦ rw (e, seen, follow) (current, refl, inl refl, inr (behind current seen))
        | inr new ↦
            rw (e, new, follow)
              (step_before remap current next (follow fuel remap (current ∷ visited) next) e (
                follow-Ends fuel remap (current ∷ visited) next (omega arith) (new, d)
                  (λ k m. ground (
                    arith,
                    m,
                    known k,
                    string_discrete current k,
                    member-keys_of_get k remap next,
                    (λ (same : current ≡ k). ap (λ j. get j remap) same),
                    e,
                  ))
                  (λ k m. elim (string_discrete current k) [
                    | yes same ↦ subst (λ j. Leads remap j next) same (one e)
                    | no n ↦
                        one_more remap k current next
                          (behind k (ground (arith, m, n, string_discrete current k))) e
                  ])))
      ]
    ]

-- Any path is resolved, whatever the table is: the result is the path or is reached from it through the
-- table, and it is no renamed path itself, unless it stands on a cycle.
pub resolve-Ends :
    (path : String) (remap : Dict String) → Ends remap path (resolve_path_remap path remap)
unfolding resolve_path_remap member
resolve-Ends path remap =
    follow-Ends (length remap + 2) remap [] path (omega arith) tt (λ k m. absurd (cc (m)))
      (λ k m. absurd (cc (m)))
