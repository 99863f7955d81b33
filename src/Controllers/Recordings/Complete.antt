-- ===== src/Controllers/Recordings/Complete.antt =====
-- For whom the pages of the list of recordings are complete.
use smartmeet_backend.Prelude.{
  ℕ, zero, suc, ◌-◌, ◌*◌, ◌≤◌, ◌<◌, ◌≡◌, All, refl, ap, ◌∙◌, Bool, true, not, ◌&&◌, Option, none,
  some, List, [], ◌∷◌, ◌++◌, map, arith, select, count, take, drop, find_first, is_some, length,
  count-append, take-append-drop, Bool-cases, inl, inr, ◌==◌, if◌then◌else◌,
}
use smartmeet_backend.Prelude.Ordering.{
  Shuffle, Orders, IsStrict, Orders-unique, Shuffle-length, Shuffle-count, Shuffle-map,
}
use smartmeet_backend.Models.{Database, Room, Recording, is_of, find_room}
use smartmeet_backend.RoomService.{has_ever_participated}
use smartmeet_backend.RoomService.Listing.{page_of, total_pages}
use smartmeet_backend.RoomService.Listing.Pages.{first_pages, first_pages_all}
use smartmeet_backend.Authentication.{AuthUser}
use smartmeet_backend.Controllers.Recordings.{
  RecordingRow, recording_row, rows_for, joined_rows, group_rows, is_row_of, page_number,
  page_limit, list,
}

-- Under the search, a user who was at most once in a room has at most one row there.
module _ {A B : Type 0} (p : A → Bool) (x : B) where
  map-select_none : (ys : List A) → count p ys ≡ 0 → map (λ _. x) (select p ys) ≡ []
  map-select_none [] h = refl
  map-select_none (y ∷ ys) h = elim (Bool-cases (p y)) [
    | inl fits ↦ ground (arith, fits)
    | inr other ↦ rw other (map-select_none ys (rw other at h))
  ]

  map-select_one :
      (ys : List A)
      → count p ys ≤ 1
      → map (λ _. x) (select p ys) ≡ (if is_some (find_first p ys) then x ∷ [] else [])
  map-select_one [] h = refl
  map-select_one (y ∷ ys) h = elim (Bool-cases (p y)) [
    | inl fits ↦ rw fits (ap (λ zs. x ∷ zs) (map-select_none ys (ground (arith, fits))))
    | inr other ↦ rw other (map-select_one ys (rw other at h))
  ]

-- The recordings that a user may see: of a room that is there, and that the user has been in.
abbrev pub is_visible : ℕ → Database → Recording → Bool
is_visible user_id db r =
    is_some (find_room r.room_id db) && has_ever_participated r.room_id user_id db

module _ (user_id : ℕ) (db : Database)
    (once : (r : ℕ) → count (is_of r user_id) db.participants ≤ 1) where
  rows_for-once :
      (r : Recording) (room : Option Room)
      → rows_for user_id db r room ≡ (
          if is_some room && has_ever_participated r.room_id user_id db
          then recording_row db r ∷ []
          else [])
  unfolding has_ever_participated
  rows_for-once r none = refl
  rows_for-once r (some room) =
      map-select_one (is_of r.room_id user_id) (recording_row db r) db.participants (once r.room_id)

  joined_rows-once :
      (rs : List Recording)
      → joined_rows user_id db rs ≡ map (recording_row db) (select (is_visible user_id db) rs)
  unfolding joined_rows
  joined_rows-once [] = refl
  joined_rows-once (r ∷ rs) = elim (Bool-cases (is_visible user_id db r)) [
    | inl visible ↦
        rw (rows_for-once r (find_room r.room_id db), visible)
          (ap (λ rows. recording_row db r ∷ rows) (joined_rows-once rs))
    | inr hidden ↦ rw (rows_for-once r (find_room r.room_id db), hidden) (joined_rows-once rs)
  ]

-- Rows of different recordings are grouped as they are.
abbrev HasDistinctRows : List RecordingRow → Type 0
HasDistinctRows rows = (id : ℕ) → count (is_row_of id) rows ≤ 1

select_all :
    {A : Type 0} (p : A → Bool) (xs : List A) → count p xs ≡ 0 → select (λ x. not (p x)) xs ≡ xs
select_all p [] h = refl
select_all p (x ∷ xs) h = elim (Bool-cases (p x)) [
  | inl fits ↦ ground (arith, fits)
  | inr other ↦ rw other (ap (λ ys. x ∷ ys) (select_all p xs (rw other at h)))
]

count-tail : {A : Type 0} (p : A → Bool) (x : A) (xs : List A) → count p xs ≤ count p (x ∷ xs)
count-tail p x xs = ground arith

==_refl : (n : ℕ) → (n == n) ≡ true
==_refl n = ground arith

group_rows_same : (rows : List RecordingRow) → HasDistinctRows rows → group_rows rows ≡ rows
unfolding group_rows
group_rows_same [] h = refl
group_rows_same (row ∷ rows) h =
    let id = row.recording.id in
    let tail : HasDistinctRows rows = λ k. ground (arith, h k, count-tail (is_row_of k) row rows) in
    let alone : count (is_row_of id) rows ≡ 0 = ground (arith, h id, ==_refl id) in
    rw (group_rows_same rows tail) (ap (λ rest. row ∷ rest) (select_all (is_row_of id) rows alone))

-- A page of different recordings is of different recordings.
count-page_of :
    {A : Type 0} (p : A → Bool) (page limit : ℕ) (rows : List A)
    → count p (page_of page limit rows) ≤ count p rows
count-page_of p page limit rows =
    let offset = (page - 1) * limit in
    let kept = drop offset rows in
    let outer = count-append p (take offset rows) kept in
    let inner = count-append p (take limit kept) (drop limit kept) in
    let whole : count p (take offset rows ++ kept) ≡ count p rows =
      ap (count p) (take-append-drop offset rows) in
    let part : count p (take limit kept ++ drop limit kept) ≡ count p kept =
      ap (count p) (take-append-drop limit kept) in
    omega arith

count-rows :
    (id : ℕ) (db : Database) (p : Recording → Bool) (rs : List Recording)
    → count (is_row_of id) (map (recording_row db) (select p rs))
      ≤ count (λ (r : Recording). r.id == id) rs
count-rows id db p [] = omega arith
count-rows id db p (r ∷ rs) = elim (Bool-cases (p r)) [
  | inl fits ↦ rw fits (ground (arith, count-rows id db p rs))
  | inr other ↦ rw other (ground (arith, count-rows id db p rs))
]

abbrev pub row_time : RecordingRow → ℕ
row_time row = row.recording.created_at

abbrev pub recording_time : Recording → ℕ
recording_time r = r.created_at

module _ (db : Database) where
  All-rows :
      (t : ℕ) (rs : List Recording)
      → All (λ r. recording_time r < t) rs
      → All (λ row. row_time row < t) (map (recording_row db) rs)
  All-rows t [] h = tt
  All-rows t (r ∷ rs) h = (h.0, All-rows t rs h.1)

  IsStrict-rows :
      (rs : List Recording)
      → IsStrict recording_time rs
      → IsStrict row_time (map (recording_row db) rs)
  IsStrict-rows [] h = tt
  IsStrict-rows (r ∷ rs) h = (All-rows r.created_at rs h.0, IsStrict-rows rs h.1)

-- The recordings of the answers to the requests for pages 1 to `n`, each with an order of its own.
abbrev pub listed :
    (ℕ → List RecordingRow → List RecordingRow) → ℕ → ℕ → AuthUser → Database → List RecordingRow
listed orders zero limit me db = []
listed orders (suc n) limit me db =
    listed orders n limit me db ++ (list (orders (suc n)) me (suc n) limit db).recordings

page_number-suc : (n : ℕ) → page_number (suc n) ≡ suc n
page_number-suc n = ground arith

page_limit_positive : (limit : ℕ) → 1 ≤ page_limit limit
page_limit_positive limit = ground arith

module _ (me : AuthUser) (db : Database)
    (once : (r : ℕ) → count (is_of r me.id) db.participants ≤ 1)
    (distinct : (id : ℕ) → count (λ (r : Recording). r.id == id) db.recordings ≤ 1)
    (seen : List Recording) (these : Shuffle seen (select (is_visible me.id db) db.recordings))
    (strict : IsStrict recording_time seen) where
  abbrev rows : List RecordingRow
  rows = map (recording_row db) seen

  abbrev joined : List RecordingRow
  joined = map (recording_row db) (select (is_visible me.id db) db.recordings)

  rows-joined : Shuffle rows joined
  rows-joined = Shuffle-map (recording_row db) these

  joined-HasDistinctRows : HasDistinctRows joined
  joined-HasDistinctRows id =
      omega (arith, count-rows id db (is_visible me.id db) db.recordings, distinct id)

  rows-HasDistinctRows : HasDistinctRows rows
  rows-HasDistinctRows id =
      omega (arith, Shuffle-count (is_row_of id) rows-joined, joined-HasDistinctRows id)

  list_once :
      (order : List RecordingRow → List RecordingRow) (page limit : ℕ)
      → Orders row_time order
      → ((list order me page limit db).recordings
          ≡ page_of (page_number page) (page_limit limit) rows)
        × ((list order me page limit db).pagination.total_pages
            ≡ total_pages (length rows) (page_limit limit))
  unfolding list
  list_once order page limit law =
      rw
        (
          joined_rows-once me.id db once db.recordings,
          group_rows_same joined joined-HasDistinctRows,
          Orders-unique row_time law (IsStrict-rows db seen strict) rows-joined,
        )
        (
          group_rows_same (page_of (page_number page) (page_limit limit) rows) (λ id.
              let c = count-page_of (is_row_of id) (page_number page) (page_limit limit) rows in
              let d = rows-HasDistinctRows id in omega arith),
          ap (λ n. total_pages n (page_limit limit)) (Shuffle-length rows-joined),
        )

  listed-first_pages :
      (orders : ℕ → List RecordingRow → List RecordingRow) (n limit : ℕ)
      → ((k : ℕ) → Orders row_time (orders k))
      → listed orders n limit me db ≡ first_pages n (page_limit limit) rows
  listed-first_pages orders zero limit law = refl
  listed-first_pages orders (suc n) limit law =
      rw
        (
          listed-first_pages orders n limit law,
          (list_once (orders (suc n)) (suc n) limit (law (suc n))).0,
          page_number-suc n,
        )
        refl

  -- Where recordings have distinct ids, on a database that does not change, for a user who was in
  -- no room twice: let `seen` be the recordings of the rooms that the user has been in, newest
  -- first, and no two of them of the same time. Whatever limit the user sends, who asks for page
  -- 1, 2, … up to the `totalPages` that each answer states gets them all, once and in this order.
  pub list_complete :
      (order : List RecordingRow → List RecordingRow)
      (orders : ℕ → List RecordingRow → List RecordingRow) (page limit : ℕ)
      → Orders row_time order
      → ((k : ℕ) → Orders row_time (orders k))
      → listed orders (list order me page limit db).pagination.total_pages limit me db
        ≡ map (recording_row db) seen
  list_complete order orders page limit law laws = rw (list_once order page limit law).1 (
      listed-first_pages orders (total_pages (length rows) (page_limit limit)) limit laws
      ∙ first_pages_all (page_limit limit) rows (page_limit_positive limit))
