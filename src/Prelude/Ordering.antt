-- ===== src/Prelude/Ordering.antt =====
-- `ORDER BY … DESC` on a number: PostgreSQL puts rows of the same number in any order, and may put
-- them in another one for the next query. So how a query orders its rows is an argument, and that
-- it does is a hypothesis.
use Prim.Native.Nat.{ℕ, suc, ◌≤◌, ◌<◌}
use mathlib.Core.Path.{◌≡◌, refl, sym, ap, ◌∙◌}
use mathlib.Core.Bool.{Bool}
use mathlib.Core.List.{List, [], ◌∷◌, map}
use native.Mathlib.Omega.{arith}
use smartmeet_backend.Prelude.Tests.{if◌then◌else◌, leb, leb→le, leb_false→lt, Bool-cases}
use smartmeet_backend.Prelude.Lists.{All, count, length}
use mathlib.Core.Logic.{inl, inr}

-- `x` put somewhere into `xs`
pub data Insert {A : Type 0} (x : A) : List A → List A → Type 0 where
  here : (xs : List A) → Insert x xs (x ∷ xs)
  there : (y : A) {xs ys : List A} → Insert x xs ys → Insert x (y ∷ xs) (y ∷ ys)

-- the same rows in another order
pub data Shuffle {A : Type 0} : List A → List A → Type 0 where
  nil : Shuffle [] []
  pick : (x : A) {xs rest ys : List A} → Shuffle xs rest → Insert x rest ys → Shuffle (x ∷ xs) ys

module _ {A : Type 0} where
  pub Shuffle-refl : (xs : List A) → Shuffle xs xs
  Shuffle-refl [] = nil
  Shuffle-refl (x ∷ xs) = pick x (Shuffle-refl xs) (here xs)

  Insert-swap :
      {x y : A} {xs ys zs : List A}
      → Insert x xs ys
      → Insert y ys zs
      → (ws : List A) × Insert y xs ws × Insert x ws zs
  Insert-swap {x} {y} {xs} i (here ys) = (y ∷ xs, here xs, there y i)
  Insert-swap (here xs) (there z j) = (_, j, here _)
  Insert-swap {x = x} {y = y} (there z {xs = xs} i) (there _ j) =
      let (ws, k, l) = Insert-swap {x = x} {y = y} {xs = xs} i j in (z ∷ ws, there z k, there z l)

  Shuffle-extract :
      {x : A} {xs ys zs : List A}
      → Insert x xs ys
      → Shuffle ys zs
      → (ws : List A) × Shuffle xs ws × Insert x ws zs
  Shuffle-extract (here xs) (pick _ {rest = rest} s i) = (rest, s, i)
  Shuffle-extract (there y j) (pick _ s i) =
      let (ws, t, k) = Shuffle-extract j s in
      let (vs, l, m) = Insert-swap k i in (vs, pick y t l, m)

  pub Shuffle-trans : {xs ys zs : List A} → Shuffle xs ys → Shuffle ys zs → Shuffle xs zs
  Shuffle-trans nil t = t
  Shuffle-trans (pick x s i) t =
      let (ws, u, j) = Shuffle-extract i t in pick x (Shuffle-trans s u) j

  Insert-All {κ} :
      (P : A → Type κ) {x : A} {xs ys : List A} → Insert x xs ys → P x → All P xs → All P ys
  Insert-All P (here xs) p h = (p, h)
  Insert-All P (there y i) p h = (h.0, Insert-All P i p h.1)

  pub Shuffle-All {κ} : (P : A → Type κ) {xs ys : List A} → Shuffle xs ys → All P xs → All P ys
  Shuffle-All P nil h = h
  Shuffle-All P (pick x s i) h = Insert-All P i h.0 (Shuffle-All P s h.1)

  Insert-inserted : (P : A → Type 0) {x : A} {xs ys : List A} → Insert x xs ys → All P ys → P x
  Insert-inserted P (here xs) h = h.0
  Insert-inserted P (there y i) h = Insert-inserted P i h.1

  Insert-count :
      (p : A → Bool) {x : A} {xs ys : List A} → Insert x xs ys → count p ys ≡ count p (x ∷ xs)
  Insert-count p (here xs) = refl
  Insert-count p (there y i) = ground (arith, Insert-count p i)

  pub Shuffle-count : (p : A → Bool) {xs ys : List A} → Shuffle xs ys → count p ys ≡ count p xs
  Shuffle-count p nil = refl
  Shuffle-count p (pick x s i) = ground (arith, Insert-count p i, Shuffle-count p s)

  Insert-length : {x : A} {xs ys : List A} → Insert x xs ys → length ys ≡ suc (length xs)
  Insert-length (here xs) = refl
  Insert-length (there y i) = ap suc (Insert-length i)

  pub Shuffle-length : {xs ys : List A} → Shuffle xs ys → length ys ≡ length xs
  Shuffle-length nil = refl
  Shuffle-length (pick x s i) = Insert-length i ∙ ap suc (Shuffle-length s)

module _ {A B : Type 0} (f : A → B) where
  Insert-map : {x : A} {xs ys : List A} → Insert x xs ys → Insert (f x) (map f xs) (map f ys)
  Insert-map (here xs) = here (map f xs)
  Insert-map (there y i) = there (f y) (Insert-map i)

  pub Shuffle-map : {xs ys : List A} → Shuffle xs ys → Shuffle (map f xs) (map f ys)
  Shuffle-map nil = nil
  Shuffle-map (pick x s i) = pick (f x) (Shuffle-map s) (Insert-map i)

module _ {A : Type 0} (time : A → ℕ) where
  abbrev pub IsNewestFirst : List A → Type 0
  IsNewestFirst [] = Unit
  IsNewestFirst (x ∷ xs) = All (λ y. time y ≤ time x) xs × IsNewestFirst xs

  -- newest first, and no two of the same time
  abbrev pub IsStrict : List A → Type 0
  IsStrict [] = Unit
  IsStrict (x ∷ xs) = All (λ y. time y < time x) xs × IsStrict xs

  -- What `ORDER BY` promises of a query's rows.
  pub record Orders (order : List A → List A) : Type 0 where
    pub shuffles : (xs : List A) → Shuffle xs (order xs)
    pub sorts : (xs : List A) → IsNewestFirst (order xs)

  -- Where no two rows have the same time there is one such order.
  pub IsStrict-unique : {xs ys : List A} → IsStrict xs → IsNewestFirst ys → Shuffle xs ys → xs ≡ ys
  IsStrict-unique s n nil = refl
  IsStrict-unique s n (pick x t (here rest)) = ap (λ r. x ∷ r) (IsStrict-unique s.1 n.1 t)
  IsStrict-unique s n (pick x t (there y i)) =
      let older = (Shuffle-All (λ z. time z < time x) t s.0).0 in
      let newer = Insert-inserted (λ z. time z ≤ time y) i n.0 in absurd (omega arith)

  pub Orders-unique :
      {order : List A → List A} {xs rows : List A}
      → Orders order
      → IsStrict xs
      → Shuffle xs rows
      → order rows ≡ xs
  Orders-unique {order} {xs} {rows} o s t =
      sym (IsStrict-unique s (o.sorts rows) (Shuffle-trans t (o.shuffles rows)))

  -- An order: each row before the ones that are not newer.
  abbrev put : A → List A → List A
  put x [] = x ∷ []
  put x (y ∷ ys) = let rest = put x ys in if leb (time y) (time x) then x ∷ y ∷ ys else y ∷ rest

  abbrev pub newest_first : List A → List A
  newest_first [] = []
  newest_first (x ∷ xs) = put x (newest_first xs)

  Insert-put : (x : A) (xs : List A) → Insert x xs (put x xs)
  Insert-put x [] = here []
  Insert-put x (y ∷ ys) = elim (Bool-cases (leb (time y) (time x))) [
    | inl older ↦ rw older (here (y ∷ ys))
    | inr newer ↦ rw newer (there y (Insert-put x ys))
  ]

  All-le : (m n : ℕ) (xs : List A) → m ≤ n → All (λ y. time y ≤ m) xs → All (λ y. time y ≤ n) xs
  All-le m n [] h a = tt
  All-le m n (x ∷ xs) h a = (omega (arith, a.0), All-le m n xs h a.1)

  put-IsNewestFirst : (x : A) (xs : List A) → IsNewestFirst xs → IsNewestFirst (put x xs)
  put-IsNewestFirst x [] n = (tt, tt)
  put-IsNewestFirst x (y ∷ ys) n = elim (Bool-cases (leb (time y) (time x))) [
    | inl older ↦
        let le = leb→le (time y) (time x) older in
        rw older ((le, All-le (time y) (time x) ys le n.0), n)
    | inr newer ↦
        let lt = leb_false→lt (time y) (time x) newer in
        rw newer (
          Insert-All (λ z. time z ≤ time y) (Insert-put x ys) (omega arith) n.0,
          put-IsNewestFirst x ys n.1,
        )
  ]

  pub newest_first-Orders : Orders newest_first
  newest_first-Orders = record { shuffles = same; sorts = sorted }
    where
      same : (xs : List A) → Shuffle xs (newest_first xs)
      same [] = nil
      same (x ∷ xs) = pick x (same xs) (Insert-put x (newest_first xs))

      sorted : (xs : List A) → IsNewestFirst (newest_first xs)
      sorted [] = tt
      sorted (x ∷ xs) = put-IsNewestFirst x (newest_first xs) (sorted xs)
