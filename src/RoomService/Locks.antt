-- ===== src/RoomService/Locks.antt =====
-- Every room with a password has its hash: no operation leaves a room that nobody could enter.
use smartmeet_backend.Prelude.{
  String, ◌≡◌, subst, Bool, any, true, Option, some, List, [], ◌∷◌, ◌++◌, arith, ok, is_some,
  find_first, All, Bool-cases, inl, inr, proceed-keeps,
}
use smartmeet_backend.Constants.{is_password}
use smartmeet_backend.Models.{Database, Room, is_active_of}
use smartmeet_backend.RoomService.{
  Bcrypt, Inputs, CreateRoomInput, hash_password, new_room, store_room, create_room,
}
use smartmeet_backend.RoomService.Creation.{hash_password_same}

abbrev pub IsLocked : Room → Type 0
IsLocked r = is_password r.access_type ≡ true → is_some r.password_hash ≡ true

abbrev pub HasLocks : Database → Type 0
HasLocks db = All IsLocked db.rooms

pub All-append {ℓ κ} :
    {A : Type ℓ} (P : A → Type κ) (xs ys : List A) → All P xs → All P ys → All P (xs ++ ys)
All-append P [] ys h k = k
All-append P (x ∷ xs) ys h k = (h.0, All-append P xs ys h.1 k)

pub find_first-All {ℓ κ} :
    {A : Type ℓ} (P : A → Type κ) (p : A → Bool) (xs : List A) (a : A)
    → All P xs
    → find_first p xs ≡ some a
    → P a
find_first-All P p [] a h e = absurd (cc e)
find_first-All P p (x ∷ xs) a h e = elim (Bool-cases (p x)) [
  | inl this ↦
      let found : some x ≡ some a = rw this at e in let same : x ≡ a = cc in subst P same h.0
  | inr other ↦ find_first-All P p xs a h.1 (rw other at e)
]

module _ (bcrypt : Bcrypt) (i : Inputs) (input : CreateRoomInput) (db : Database) where
  new_room-IsLocked :
      (hashed : Option String)
      → (hash_password bcrypt i input db).0 ≡ ok hashed
      → IsLocked (new_room bcrypt i input hashed)
  unfolding hash_password
  new_room-IsLocked hashed e lock = ground arith

  store_room-HasLocks :
      (hashed : Option String)
      → IsLocked (new_room bcrypt i input hashed)
      → HasLocks db
      → HasLocks (store_room bcrypt i input hashed db).1
  unfolding store_room
  store_room-HasLocks hashed lock h =
      elim (Bool-cases (any (is_active_of i.room_id input.host_id) db.participants)) [
        | inl taken ↦ rw taken h
        | inr new ↦ rw new (All-append IsLocked db.rooms _ h (lock, tt))
      ]

  pub create_room-HasLocks : HasLocks db → HasLocks (create_room bcrypt i input db).1
  unfolding create_room
  create_room-HasLocks h =
      proceed-keeps HasLocks (hash_password bcrypt i input db) (store_room bcrypt i input)
        (rw (hash_password_same bcrypt i input db) h)
        (λ hashed e.
          rw (hash_password_same bcrypt i input db)
            (store_room-HasLocks hashed (new_room-IsLocked hashed e) h))
