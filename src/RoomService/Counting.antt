-- ===== src/RoomService/Counting.antt =====
-- How the counts of rows move under an insertion and under an update of the rows with one id.
use smartmeet_backend.Prelude.{
  ℕ, suc, ◌≤◌, ◌≡◌, refl, Bool, true, false, none, some, List, [], ◌∷◌, ◌++◌, arith, count, any,
  find_first,
}
use smartmeet_backend.Models.{RoomParticipant, update_rows}

module _ {A : Type 0} (p : A → Bool) where
  pub count_zero_of_any : (xs : List A) → any p xs ≡ false → count p xs ≡ 0
  count_zero_of_any [] h = refl
  count_zero_of_any (x ∷ xs) h = ground (arith, count_zero_of_any xs)

  pub any_of_count_zero : (xs : List A) → count p xs ≡ 0 → any p xs ≡ false
  any_of_count_zero [] h = refl
  any_of_count_zero (x ∷ xs) h = ground (arith, any_of_count_zero xs)

  pub find_first-none : (xs : List A) → count p xs ≡ 0 → find_first p xs ≡ none
  find_first-none [] h = refl
  find_first-none (x ∷ xs) h = ground (arith, find_first-none xs)

  pub count_zero_of_find_first : (xs : List A) → find_first p xs ≡ none → count p xs ≡ 0
  count_zero_of_find_first [] h = refl
  count_zero_of_find_first (x ∷ xs) h = ground (arith, count_zero_of_find_first xs)

  pub any_of_find_first : (xs : List A) → find_first p xs ≡ none → any p xs ≡ false
  any_of_find_first [] h = refl
  any_of_find_first (x ∷ xs) h = ground (arith, any_of_find_first xs)

  pub find_first_sat : (xs : List A) {x : A} → find_first p xs ≡ some x → p x ≡ true
  find_first_sat [] h = ground arith
  find_first_sat (y ∷ xs) {x} h = ground (arith, find_first_sat xs {x = x})

  pub find_first_append :
      (xs ys : List A) → find_first p xs ≡ none → find_first p (xs ++ ys) ≡ find_first p ys
  find_first_append [] ys h = refl
  find_first_append (x ∷ xs) ys h = ground (arith, find_first_append xs ys)

  pub find_first_append_some :
      (xs ys : List A) {x : A} → find_first p xs ≡ some x → find_first p (xs ++ ys) ≡ some x
  find_first_append_some [] ys h = ground arith
  find_first_append_some (y ∷ xs) ys {x} h = ground (arith, find_first_append_some xs ys {x = x})

-- Where one predicate implies another, it selects no more rows.
pub count_mono :
    {A : Type 0} (p q : A → Bool)
    → ((x : A) → p x ≡ true → q x ≡ true)
    → (xs : List A) → count p xs ≤ count q xs
count_mono p q imp [] = omega arith
count_mono p q imp (x ∷ xs) = ground (arith, imp x, count_mono p q imp xs)

module _ (q : RoomParticipant → Bool) (id : ℕ) (change : RoomParticipant → RoomParticipant) where
  -- A change that makes no row fit never raises the count.
  pub count-update_rows-le :
      ((p : RoomParticipant) → q (change p) ≡ true → q p ≡ true)
      → (ps : List RoomParticipant) → count q (update_rows id change ps) ≤ count q ps
  count-update_rows-le shrink [] = omega arith
  count-update_rows-le shrink (p ∷ ps) = ground (arith, shrink p, count-update_rows-le shrink ps)

  pub count-update_rows :
      ((p : RoomParticipant) → q (change p) ≡ q p)
      → (ps : List RoomParticipant) → count q (update_rows id change ps) ≡ count q ps
  count-update_rows keep [] = refl
  count-update_rows keep (p ∷ ps) = ground (arith, keep p, count-update_rows keep ps)

  -- A row that fits, and that the change takes out, is one less.
  pub count-update_rows-lt :
      ((p : RoomParticipant) → q (change p) ≡ false)
      → (ps : List RoomParticipant) {found : RoomParticipant} → find_first q ps ≡ some found
      → found.id ≡ id
      → suc (count q (update_rows id change ps)) ≤ count q ps
  count-update_rows-lt out [] h e = ground arith
  count-update_rows-lt out (p ∷ ps) {found} h e = ground (
    arith,
    out p,
    count-update_rows-lt out ps {found = found},
    count-update_rows-le (λ r k. ground (arith, out r)) ps,
  )
