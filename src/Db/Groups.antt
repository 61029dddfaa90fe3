-- ===== src/Db/Groups.antt =====
-- host/db.py: the table of registered groups has one main group at most, and one group per folder.
use evoclaw.Base.{
  String, Bool, true, false, not, ◌||◌, if◌then◌else◌, ◌≡◌, refl, ◌≢◌, Option, none, some, List, [],
  ◌∷◌, ite, arith, string_discrete, Option-cases, Bool-cases, inl, inr,
}
use evoclaw.Base.Dict.{Dict, get, set, get-set}
use evoclaw.Db.{
  Database, Group, empty, demote_others, folder_taken, keep_added, set_registered_group,
}

abbrev pub find_group : Database → String → Option Group
find_group db k = get k db.registered_groups

-- Any two main groups are one, any two groups of one folder are one, and a group stands under its jid.
pub record IsRegistry (d : Dict Group) : Type 0 where
  pub one_main :
      (j k : String) (g h : Group)
      → get j d ≡ some g
      → get k d ≡ some h
      → g.is_main ≡ true
      → h.is_main ≡ true
      → j ≡ k
  pub own_folder :
      (j k : String) (g h : Group)
      → get j d ≡ some g
      → get k d ≡ some h
      → g.folder ≡ h.folder
      → j ≡ k
  pub own_jid : (j : String) (g : Group) → get j d ≡ some g → g.jid ≡ j

abbrev demoted : String → String → Option Group → Option Group
demoted jid k none = none
demoted jid k (some g) = ite (string_discrete k jid) (some g) (some (record g { is_main = false }))

get-demote_others :
    (jid k : String) (d : Dict Group) → get k (demote_others jid d) ≡ demoted jid k (get k d)
unfolding get demote_others
get-demote_others jid k [] = refl
get-demote_others jid k ((j, g) ∷ d) = ground (
  arith,
  get-demote_others jid k d,
  string_discrete j k,
  string_discrete j jid,
  string_discrete k jid,
)

not_taken :
    (jid folder k : String) (h : Group) (d : Dict Group)
    → folder_taken jid folder d ≡ false
    → get k d ≡ some h
    → jid ≢ k
    → h.folder ≢ folder
unfolding get folder_taken
not_taken jid folder k h [] free e n same = cc (e)
not_taken jid folder k h ((j, g) ∷ d) free e n same = ground (
  arith,
  free,
  e,
  n,
  same,
  not_taken jid folder k h d,
  string_discrete j k,
  string_discrete j jid,
  string_discrete g.folder folder,
)

-- A group that is found after the others were demoted was there, with the same folder and jid.
demote_inv :
    (jid k : String) (d : Dict Group) (g : Group)
    → get k (demote_others jid d) ≡ some g
    → (old : Group) × (get k d ≡ some old)
      × (g.folder ≡ old.folder)
      × (g.jid ≡ old.jid)
      × (g.is_main ≡ true → old.is_main ≡ true)
      × (g.is_main ≡ true → k ≡ jid)
demote_inv jid k d g e = elim (Option-cases (get k d)) [
  | inl h ↦ absurd (ground (arith, e, h, get-demote_others jid k d))
  | inr (old, h) ↦ (
    old,
    h,
    ground (arith, e, h, get-demote_others jid k d, string_discrete k jid),
    ground (arith, e, h, get-demote_others jid k d, string_discrete k jid),
    (λ m. ground (arith, e, h, m, get-demote_others jid k d, string_discrete k jid)),
    λ m. ground (arith, e, h, m, get-demote_others jid k d, string_discrete k jid),
  )
]

demote-IsRegistry :
    (jid : String) (d : Dict Group) → IsRegistry d → IsRegistry (demote_others jid d)
demote-IsRegistry jid d v = record {
  one_main = λ j k g h ej ek mg mh.
      let (g', eg, _, _, ig, _) = demote_inv jid j d g ej in
      let (h', eh, _, _, ih, _) = demote_inv jid k d h ek in
      v.one_main j k g' h' eg eh (ig mg) (ih mh);
  own_folder = λ j k g h ej ek same.
      let (g', eg, fg, _, _, _) = demote_inv jid j d g ej in
      let (h', eh, fh, _, _, _) = demote_inv jid k d h ek in
      v.own_folder j k g' h' eg eh (cc (fg, fh, same));
  own_jid =
      λ j g e. let (g', eg, _, jg, _, _) = demote_inv jid j d g e in cc (jg, v.own_jid j g' eg);
}

-- A main group is written only where no other one is left.
abbrev NoOther : Group → Dict Group → Type 0
NoOther row d =
    row.is_main ≡ true
    → (k : String) (h : Group) → get k d ≡ some h
    → h.is_main ≡ true
    → k ≡ row.jid

module _ (d : Dict Group) (row : Group) (v : IsRegistry d) where
  put_one_main :
      NoOther row d
      → (j k : String) (g h : Group) → get j (set row.jid row d) ≡ some g
      → get k (set row.jid row d) ≡ some h
      → g.is_main ≡ true
      → h.is_main ≡ true
      → j ≡ k
  put_one_main alone j k g h ej ek mg mh = ground (
    arith,
    ej,
    ek,
    mg,
    mh,
    get-set row.jid j row d,
    get-set row.jid k row d,
    string_discrete row.jid j,
    string_discrete row.jid k,
    v.one_main j k g h,
    alone,
    (λ (m : row.is_main ≡ true). alone m j g),
    (λ (m : row.is_main ≡ true). alone m k h),
  )

  put_own_folder :
      folder_taken row.jid row.folder d ≡ false
      → (j k : String) (g h : Group) → get j (set row.jid row d) ≡ some g
      → get k (set row.jid row d) ≡ some h
      → g.folder ≡ h.folder
      → j ≡ k
  put_own_folder free j k g h ej ek same = ground (
    arith,
    ej,
    ek,
    same,
    get-set row.jid j row d,
    get-set row.jid k row d,
    string_discrete row.jid j,
    string_discrete row.jid k,
    v.own_folder j k g h,
    not_taken row.jid row.folder j g d free,
    not_taken row.jid row.folder k h d free,
  )

  put_own_jid : (j : String) (g : Group) → get j (set row.jid row d) ≡ some g → g.jid ≡ j
  put_own_jid j g e =
      ground (arith, e, get-set row.jid j row d, string_discrete row.jid j, v.own_jid j g)

  put-IsRegistry :
      NoOther row d → folder_taken row.jid row.folder d ≡ false → IsRegistry (set row.jid row d)
  put-IsRegistry alone free = record {
    one_main = put_one_main alone;
    own_folder = put_own_folder free;
    own_jid = put_own_jid;
  }

-- The groups that the call leaves where it does not raise.
abbrev others_of : Database → Group → Dict Group
others_of db g =
    if g.is_main then demote_others g.jid db.registered_groups else db.registered_groups

others-IsRegistry :
    (db : Database) (g : Group)
    → IsRegistry db.registered_groups
    → IsRegistry (others_of db g) × NoOther g (others_of db g)
others-IsRegistry db g v = elim (Bool-cases g.is_main) [
  | inl main ↦ rw main (
    demote-IsRegistry g.jid db.registered_groups v,
    λ _ k h e m. let (_, _, _, _, _, at) = demote_inv g.jid k db.registered_groups h e in at m,
  )
  | inr plain ↦ rw plain (v, λ m. absurd (cc m))
]

keep_added-IsRegistry :
    (d : Dict Group) (g : Group) (o : Option Group)
    → IsRegistry d × NoOther g d
    → folder_taken g.jid g.folder d ≡ false
    → IsRegistry (set g.jid (keep_added g o) d)
unfolding keep_added
keep_added-IsRegistry d g none (v, alone) free = put-IsRegistry d g v alone free
keep_added-IsRegistry d g (some old) (v, alone) free =
    put-IsRegistry d (record g { added_at = old.added_at }) v alone free

set_registered_group-IsRegistry :
    (valid : String → Bool) (db db' : Database) (g : Group)
    → IsRegistry db.registered_groups
    → set_registered_group valid db g ≡ some db'
    → IsRegistry db'.registered_groups
unfolding set_registered_group
set_registered_group-IsRegistry valid db db' g v h =
    let others = others_of db g in
    elim (Bool-cases (not (valid g.folder) || folder_taken g.jid g.folder others)) [
      | inl bad ↦ absurd (ground (arith, h, bad))
      | inr good ↦
          let written : db'.registered_groups ≡ set g.jid (keep_added g (get g.jid others)) others =
            ground (arith, h, good) in
          let free : folder_taken g.jid g.folder others ≡ false = ground (arith, good) in
          rw written
            (keep_added-IsRegistry others g (get g.jid others) (others-IsRegistry db g v) free)
    ]

-- The calls that raise change nothing.
unfoldable pub register_all : (String → Bool) → Database → List Group → Database
register_all valid db [] = db
register_all valid db (g ∷ gs) = elim (set_registered_group valid db g) [
  | none ↦ register_all valid db gs
  | some db' ↦ register_all valid db' gs
]

register_all-IsRegistry :
    (valid : String → Bool) (db : Database) (gs : List Group)
    → IsRegistry db.registered_groups
    → IsRegistry (register_all valid db gs).registered_groups
unfolding register_all
register_all-IsRegistry valid db [] v = v
register_all-IsRegistry valid db (g ∷ gs) v =
    elim (Option-cases (set_registered_group valid db g)) [
      | inl e ↦ rw (e, register_all) (register_all-IsRegistry valid db gs v)
      | inr (db', e) ↦
          rw (e, register_all)
            (register_all-IsRegistry valid db' gs
              (set_registered_group-IsRegistry valid db db' g v e))
    ]

-- From an empty table, after any groups were set, raising or not: two main groups are the same one,
-- two groups of one folder are the same one, and each group stands under its jid.
pub register_all-empty :
    (valid : String → Bool) (gs : List Group)
    → IsRegistry (register_all valid empty gs).registered_groups
register_all-empty valid gs = register_all-IsRegistry valid empty gs (record {
  one_main = λ j k g h e. absurd (none_there j g e);
  own_folder = λ j k g h e. absurd (none_there j g e);
  own_jid = λ j g e. absurd (none_there j g e);
})
  where
    none_there : (j : String) (g : Group) → get j empty.registered_groups ≡ some g → ⊥
    none_there j g e = unfold get in cc (e)
