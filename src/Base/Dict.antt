-- ===== src/Base/Dict.antt =====
-- Python's `dict` with text keys: an association list in insertion order, sealed behind its laws.
use Prim.Native.String.{String}
use mathlib.Core.Path.{◌≡◌, refl}
use mathlib.Core.Logic.{ite, if_pos, if_neg, ◌≢◌, ◌⊎◌, inl, inr}
use mathlib.Core.Bool.{true, false}
use mathlib.Core.Option.{Option, none, some}
use mathlib.Core.List.{List, [], ◌∷◌}
use native.Mathlib.Omega.{arith}
use evoclaw.Base.Keys.{string_discrete, member}

abbrev pub Dict {ℓ} : Type ℓ → Type ℓ
Dict V = List (String × V)

module _ {ℓ} {V : Type ℓ} where
  -- `d.get(k)`
  unfoldable pub get : String → Dict V → Option V
  get k [] = none
  get k ((j, v) ∷ d) = ite (string_discrete j k) (some v) (get k d)

  -- `d[k] = v`: in place, or at the end
  unfoldable pub set : String → V → Dict V → Dict V
  set k v [] = (k, v) ∷ []
  set k v ((j, w) ∷ d) = ite (string_discrete j k) ((j, v) ∷ d) ((j, w) ∷ set k v d)

  -- `d.pop(k, None)`
  unfoldable pub remove : String → Dict V → Dict V
  remove k [] = []
  remove k ((j, w) ∷ d) = let rest = remove k d in ite (string_discrete j k) rest ((j, w) ∷ rest)

  -- `d.keys()`
  unfoldable pub keys : Dict V → List String
  keys [] = []
  keys ((j, _) ∷ d) = j ∷ keys d

  pub get-set :
      (k j : String) (v : V) (d : Dict V)
      → get j (set k v d) ≡ ite (string_discrete k j) (some v) (get j d)
  unfolding get set
  get-set k j v [] = refl
  get-set k j v ((i, w) ∷ d) = ground (arith, get-set k j v d)

  pub get-remove :
      (k j : String) (d : Dict V) → get j (remove k d) ≡ ite (string_discrete k j) none (get j d)
  unfolding get remove
  get-remove k j [] = ground arith
  get-remove k j ((i, w) ∷ d) = ground (arith, get-remove k j d)

  -- A key stands in the dictionary exactly when a lookup of it finds a value.
  pub member-keys_of_get :
      (k : String) (d : Dict V) (v : V) → get k d ≡ some v → member k (keys d) ≡ true
  unfolding get keys member
  member-keys_of_get k [] v h = ground arith
  member-keys_of_get k ((i, w) ∷ d) v h = ground (arith, member-keys_of_get k d v)

  pub get_of_not-member : (k : String) (d : Dict V) → member k (keys d) ≡ false → get k d ≡ none
  unfolding get keys member
  get_of_not-member k [] h = refl
  get_of_not-member k ((i, w) ∷ d) h = ground (arith, get_of_not-member k d)

-- What is found after a write is what was written, or what was there under another key.
pub get-set_cases {ℓ} :
    {V : Type ℓ} (k j : String) (v w : V) (d : Dict V)
    → get j (set k v d) ≡ some w
    → (k ≡ j) × (w ≡ v) ⊎ (k ≢ j) × (get j d ≡ some w)
get-set_cases k j v w d h = elim (string_discrete k j) [
  | yes e ↦ inl (e, ground (arith, h, get-set k j v d, e, string_discrete k j))
  | no n ↦ inr (n, ground (arith, h, get-set k j v d, n, string_discrete k j))
]

pub get-set_ne {ℓ} :
    {V : Type ℓ} (k j : String) (v : V) (d : Dict V) → k ≢ j → get j (set k v d) ≡ get j d
get-set_ne k j v d n = rw get-set (if_neg (string_discrete k j) n _ _)

pub get-set_self {ℓ} : {V : Type ℓ} (k : String) (v : V) (d : Dict V) → get k (set k v d) ≡ some v
get-set_self k v d = rw get-set (if_pos (string_discrete k k) refl _ _)
