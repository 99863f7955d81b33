-- ===== src/RoomService/Listing/Pages.antt =====
-- The pages of a listing are its cut into pieces: none is lost and none is repeated.
use smartmeet_backend.Prelude.{
  ℕ, zero, suc, ◌+◌, ◌-◌, ◌*◌, ◌≤◌, ◌≡◌, refl, ap, ◌∙◌, List, [], ◌∷◌, ◌++◌, map, arith, length,
  take, drop, select,
}
use smartmeet_backend.Prelude.Ordering.{Shuffle, Orders, IsStrict, Orders-unique, Shuffle-length}
use native.Mathlib.Nat.{zero-add, suc-add}
use mathlib.Core.List.{reverse, map-append}
use smartmeet_backend.Models.{Database, Room, Message}
use smartmeet_backend.RoomService.Listing.{
  total_pages, page_of, active_rooms, room_json, query_rooms, RoomJson, room_messages, get_messages,
}

take_add {ℓ} :
    {A : Type ℓ} (a b : ℕ) (xs : List A) → take (a + b) xs ≡ take a xs ++ take b (drop a xs)
take_add zero b xs = rw zero-add
take_add (suc a) zero [] = rw suc-add
take_add (suc a) (suc b) [] = rw suc-add
take_add (suc a) b (x ∷ xs) = rw (suc-add, take_add a b xs)

take_all {ℓ} : {A : Type ℓ} (n : ℕ) (xs : List A) → length xs ≤ n → take n xs ≡ xs
take_all zero [] h = refl
take_all zero (x ∷ xs) h = absurd (omega arith)
take_all (suc n) [] h = refl
take_all (suc n) (x ∷ xs) h = ap (λ r. x ∷ r) (take_all n xs (omega arith))

-- The first `n` pages, one after the other.
abbrev pub first_pages {ℓ} : {A : Type ℓ} → ℕ → ℕ → List A → List A
first_pages zero limit rows = []
first_pages (suc n) limit rows = first_pages n limit rows ++ page_of (suc n) limit rows

total_pages_enough : (count limit : ℕ) → 1 ≤ limit → count ≤ total_pages count limit * limit
unfolding total_pages
total_pages_enough count limit h = grind arith

first_pages-take {ℓ} :
    {A : Type ℓ} (n limit : ℕ) (rows : List A) → first_pages n limit rows ≡ take (n * limit) rows
first_pages-take zero limit rows = let e : 0 * limit ≡ 0 = omega arith in rw e refl
first_pages-take (suc n) limit rows =
    let e : suc n * limit ≡ n * limit + limit = grind arith in
    let k : suc n - 1 ≡ n = omega arith in
    rw (e, take_add (n * limit) limit rows, k, first_pages-take n limit rows)

pub first_pages_all {ℓ} :
    {A : Type ℓ} (limit : ℕ) (rows : List A)
    → 1 ≤ limit
    → first_pages (total_pages (length rows) limit) limit rows ≡ rows
first_pages_all limit rows h =
    first_pages-take (total_pages (length rows) limit) limit rows
    ∙ take_all (total_pages (length rows) limit * limit) rows
        (total_pages_enough (length rows) limit h)

-- The rooms of the answers to the requests for pages 1 to `n`, each with an order of its own.
abbrev pub listed : (ℕ → List Room → List Room) → ℕ → ℕ → Database → List RoomJson
listed orders zero limit db = []
listed orders (suc n) limit db =
    listed orders n limit db ++ (query_rooms (orders (suc n)) (suc n) limit db).rooms

listed-first_pages :
    (orders : ℕ → List Room → List Room) (rooms : List Room) (n limit : ℕ) (db : Database)
    → ((k : ℕ) → orders k (active_rooms db) ≡ rooms)
    → listed orders n limit db ≡ map (room_json db) (first_pages n limit rooms)
unfolding query_rooms
listed-first_pages orders rooms zero limit db same = refl
listed-first_pages orders rooms (suc n) limit db same =
    rw (listed-first_pages orders rooms n limit db same, same (suc n), map-append)

-- On a database that does not change, and with a limit of one or more: let `rooms` be the active
-- rooms, newest first, and no two of them of the same time. A client that asks for page 1, 2, … up
-- to the `totalPages` that each answer states gets them all, once and in this order.
pub query_rooms_complete :
    (order : List Room → List Room) (orders : ℕ → List Room → List Room) (page limit : ℕ)
    (db : Database) (rooms : List Room)
    → ((k : ℕ) → Orders (λ (r : Room). r.created_at) (orders k))
    → Shuffle rooms (select (λ r. r.is_active) db.rooms)
    → IsStrict (λ (r : Room). r.created_at) rooms
    → 1 ≤ limit
    → listed orders (query_rooms order page limit db).pagination.total_pages limit db
      ≡ map (room_json db) rooms
unfolding query_rooms
query_rooms_complete order orders page limit db rooms law these strict h =
    rw (Shuffle-length these) (
      listed-first_pages orders rooms (total_pages (length rooms) limit) limit db
        (λ k. Orders-unique (λ (r : Room). r.created_at) (law k) strict these)
      ∙ ap (map (room_json db)) (first_pages_all limit rooms h))

-- The first page of the chat history is the newest messages of the room, at most `limit` of them,
-- in the order of their times, where no two have the same time.
pub get_messages_newest :
    (order : List Message → List Message) (room_id limit : ℕ) (db : Database)
    (messages : List Message)
    → Orders (λ (m : Message). m.created_at) order
    → Shuffle messages (room_messages room_id db)
    → IsStrict (λ (m : Message). m.created_at) messages
    → (get_messages order room_id 1 limit db).messages ≡ reverse (take limit messages)
unfolding get_messages
get_messages_newest order room_id limit db messages law these strict =
    let start : (1 - 1) * limit ≡ 0 = omega arith in
    rw (start, Orders-unique (λ (m : Message). m.created_at) law strict these) refl
