-- ===== src/Prelude/Map.antt =====
-- JavaScript's `Map`: entries in insertion order; `set` on a key that is there keeps its place.
use Prim.Native.Nat.{ℕ}
use mathlib.Core.Path.{◌≡◌, refl}
use mathlib.Core.Logic.{◌↔◌}
use mathlib.Core.Bool.{Bool, true, false}
use mathlib.Core.Option.{Option, none, some}
use mathlib.Core.List.{List, [], ◌∷◌}
use native.Mathlib.Omega.{arith}
use smartmeet_backend.Prelude.Tests.{◌==◌, ==_iff, if◌then◌else◌, is_some}

-- the types that serve as keys
pub record Key {ℓ} (K : Type ℓ) : Type ℓ where
  pub same : K → K → Bool
  pub same_iff : (a b : K) → (same a b ≡ true) ↔ (a ≡ b)

instance abbrev pub nat_key : Key ℕ
nat_key = record { same = ◌==◌; same_iff = ==_iff }

abbrev pub Map {ℓ κ} : Type ℓ → Type κ → Type (ℓ ⊔ κ)
Map K V = List (K × V)

module _ {ℓ κ} {K : Type ℓ} {V : Type κ} where
  abbrev pub keys : Map K V → List K
  keys [] = []
  keys ((k, v) ∷ m) = k ∷ keys m

  abbrev pub values : Map K V → List V
  values [] = []
  values ((k, v) ∷ m) = v ∷ values m

  -- `map.size === 0`
  abbrev pub is_empty : Map K V → Bool
  is_empty [] = true
  is_empty (_ ∷ _) = false

pub same_refl {ℓ} : {K : Type ℓ} ⦃e : Key K⦄ (k : K) → e.same k k ≡ true
same_refl ⦃e⦄ k = (e.same_iff k k).1 refl

module _ {ℓ κ} {K : Type ℓ} {V : Type κ} ⦃e : Key K⦄ where
  unfoldable pub get : Map K V → K → Option V
  get [] k = none
  get ((j, v) ∷ m) k = if e.same j k then some v else get m k

  unfoldable pub set : Map K V → K → V → Map K V
  set [] k v = (k, v) ∷ []
  set ((j, w) ∷ m) k v = if e.same j k then (j, v) ∷ m else (j, w) ∷ set m k v

  unfoldable pub delete : Map K V → K → Map K V
  delete [] k = []
  delete ((j, v) ∷ m) k = let rest = delete m k in if e.same j k then rest else (j, v) ∷ rest

  abbrev pub has : Map K V → K → Bool
  has m k = is_some (get m k)

  pub get-set :
      (m : Map K V) (k j : K) (v : V) → get (set m k v) j ≡ (if e.same k j then some v else get m j)
  unfolding get set
  get-set [] k j v = refl
  get-set ((i, w) ∷ m) k j v =
      ground (arith, get-set m k j v, e.same_iff i k, e.same_iff i j, e.same_iff k j)

  pub get-delete :
      (m : Map K V) (k j : K) → get (delete m k) j ≡ (if e.same k j then none else get m j)
  unfolding get delete
  get-delete [] k j = ground arith
  get-delete ((i, w) ∷ m) k j =
      ground (arith, get-delete m k j, e.same_iff i k, e.same_iff i j, e.same_iff k j)

  pub get-set_self : (m : Map K V) (k : K) (v : V) → get (set m k v) k ≡ some v
  get-set_self m k v = rw (get-set m k k v, same_refl k)

  pub get-delete_self : (m : Map K V) (k : K) → get (delete m k) k ≡ none
  get-delete_self m k = rw (get-delete m k k, same_refl k)

pub ruleset map_laws = (get-set, get-delete)
