-- ===== src/RoomService/Creation.antt =====
-- What `createRoom` writes, and that it keeps the invariant.
use smartmeet_backend.Prelude.{
  String, ℕ, ◌≤◌, ◌≡◌, refl, false, Option, none, some, [], ◌∷◌, ◌++◌, arith, ◌==◌, Option-cases,
  Bool-cases, inl, inr, count, any, ok, proceed-keeps, ◌∙◌,
}
use smartmeet_backend.Constants.{host}
use smartmeet_backend.Models.{
  Database, RoomParticipant, is_active_in, is_active_of, find_room, add_room, new_participant,
  add_participant,
}
use smartmeet_backend.RoomService.{
  Inputs, Bcrypt, CreateRoomInput, hash_password, new_room, store_room, create_room,
}
use smartmeet_backend.RoomService.Counting.{
  find_first_append_some, find_first_append, any_of_count_zero, count_mono,
}
use smartmeet_backend.RoomService.Invariant.{
  IsConsistent, Fits, Fits-le, count-add_participant_in, count-add_participant_of,
}

-- The transaction of `createRoom`, for a fresh room id and a room that has a place for its host.
module _ (bcrypt : Bcrypt) (i : Inputs) (input : CreateRoomInput) where
  abbrev pub host_row : RoomParticipant
  host_row = new_participant i.participant_id i.now i.room_id input.host_id host

  -- No row of a room that is not there is active, so the host's row is accepted.
  pub host_is_new :
      (db : Database)
      → find_room i.room_id db ≡ none
      → IsConsistent db
      → any (is_active_of i.room_id input.host_id) db.participants ≡ false
  host_is_new db fresh c =
      any_of_count_zero (is_active_of i.room_id input.host_id) db.participants (
        ground (
          arith,
          c.capacity i.room_id,
          count_mono (is_active_of i.room_id input.host_id) (is_active_in i.room_id)
              (λ p h. ground arith) db.participants,
        ))

  pub store_room_lem :
      (hashed : Option String) (db : Database)
      → find_room i.room_id db ≡ none
      → IsConsistent db
      → store_room bcrypt i input hashed db ≡ (
        ok (new_room bcrypt i input hashed),
        add_participant host_row (add_room (new_room bcrypt i input hashed) db),
      )
  unfolding store_room
  store_room_lem hashed db fresh c = ground (arith, host_is_new db fresh c)

  -- Another room's row is found as before.
  find_room-add_room_ne :
      (hashed : Option String) (db : Database) (r : ℕ)
      → (i.room_id == r) ≡ false
      → find_room r (add_room (new_room bcrypt i input hashed) db) ≡ find_room r db
  find_room-add_room_ne hashed db r ne = elim (Option-cases (find_room r db)) [
    | inl missing ↦
        rw
          (
            missing,
            find_first_append (λ q. q.id == r) db.rooms (new_room bcrypt i input hashed ∷ [])
                missing,
          )
          (ground arith)
    | inr (q, found) ↦
        rw
          (
            found,
            find_first_append_some (λ q. q.id == r) db.rooms (new_room bcrypt i input hashed ∷ [])
                found,
          )
          refl
  ]

  pub find_room-add_room_self :
      (hashed : Option String) (db : Database)
      → find_room i.room_id db ≡ none
      → find_room i.room_id (add_room (new_room bcrypt i input hashed) db)
        ≡ some (new_room bcrypt i input hashed)
  find_room-add_room_self hashed db fresh =
      find_first_append (λ q. q.id == i.room_id) db.rooms (new_room bcrypt i input hashed ∷ [])
        fresh
      ∙ ground arith

  store_room-Fits :
      (hashed : Option String) (db : Database) (r : ℕ)
      → find_room i.room_id db ≡ none
      → 1 ≤ input.max_participants
      → IsConsistent db
      → Fits
          (find_room r (add_room (new_room bcrypt i input hashed) db))
          (count (is_active_in r) (db.participants ++ host_row ∷ []))
  store_room-Fits hashed db r fresh space c = elim (Bool-cases (i.room_id == r)) [
    | inl this ↦
        let e : i.room_id ≡ r = ground arith in
        rw (← e, find_room-add_room_self hashed db fresh)
          (ground
            (arith, c.capacity i.room_id, count-add_participant_in host_row db refl i.room_id))
    | inr other ↦ rw (find_room-add_room_ne hashed db r other) (
        Fits-le (find_room r db) _ _ (ground (arith, count-add_participant_in host_row db refl r))
          (c.capacity r))
  ]

  store_room-IsConsistent :
      (hashed : Option String) (db : Database)
      → find_room i.room_id db ≡ none
      → 1 ≤ input.max_participants
      → IsConsistent db
      → IsConsistent (store_room bcrypt i input hashed db).1
  store_room-IsConsistent hashed db fresh space c = rw (store_room_lem hashed db fresh c) (record {
    capacity = λ r. store_room-Fits hashed db r fresh space c;
    unique = λ r u.
        count-add_participant_of host_row db refl r u (host_is_new db fresh c) (c.unique r u);
  })

  pub hash_password_same : (db : Database) → (hash_password bcrypt i input db).1 ≡ db
  unfolding hash_password
  hash_password_same db = ground arith

  pub create_room-IsConsistent :
      (db : Database)
      → find_room i.room_id db ≡ none
      → 1 ≤ input.max_participants
      → IsConsistent db
      → IsConsistent (create_room bcrypt i input db).1
  unfolding create_room
  create_room-IsConsistent db fresh space c =
      proceed-keeps IsConsistent (hash_password bcrypt i input db) (store_room bcrypt i input)
        (rw (hash_password_same db) c)
        (λ hashed e. rw (hash_password_same db) (store_room-IsConsistent hashed db fresh space c))
