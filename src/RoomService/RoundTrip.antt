-- ===== src/RoomService/RoundTrip.antt =====
-- What `createRoom` stores, as `joinRoom` reads it back (src/services/roomService.js).
use smartmeet_backend.Prelude.{
  ℕ, String, ◌≤◌, ◌≡◌, refl, true, Option, none, some, [], ◌∷◌, arith, ok, count, Bool-cases, inl,
  inr, count-append,
}
use smartmeet_backend.Constants.{is_password}
use smartmeet_backend.Models.{
  Database, RoomParticipant, find_room, is_active_in, add_participant, add_room,
}
use smartmeet_backend.RoomService.{
  Bcrypt, CreateRoomInput, Inputs, salt_rounds, non_empty, hash_password, new_room, create_room,
  join_room,
}
use smartmeet_backend.RoomService.Invariant.{IsConsistent}
use smartmeet_backend.RoomService.Creation.{host_row, store_room_lem, find_room-add_room_self}
use smartmeet_backend.RoomService.Passwords.{PasswordFits}
use smartmeet_backend.RoomService.Join.{MayJoin, join_room_iff}

module _ (bcrypt : Bcrypt) (i : Inputs) (input : CreateRoomInput) (db : Database) where
  -- the tables after a creation that stored this hash
  abbrev tables_after : Option String → Database
  tables_after hashed =
      add_participant (host_row bcrypt i input) (add_room (new_room bcrypt i input hashed) db)

  create_room-stores :
      (hashed : Option String)
      → IsConsistent db
      → find_room i.room_id db ≡ none
      → hash_password bcrypt i input db ≡ (ok hashed, db)
      → create_room bcrypt i input db ≡ (ok (new_room bcrypt i input hashed), tables_after hashed)
  unfolding create_room
  create_room-stores hashed c fresh e = rw e (store_room_lem bcrypt i input hashed db fresh c)

  only_host :
      (hashed : Option String)
      → IsConsistent db
      → find_room i.room_id db ≡ none
      → count (is_active_in i.room_id) (tables_after hashed).participants ≡ 1
  only_host hashed c fresh = ground (
    arith,
    count-append (is_active_in i.room_id) db.participants (host_row bcrypt i input ∷ []),
    c.capacity i.room_id,
    fresh,
  )

  may_join :
      (hashed : Option String) (user_id : ℕ) (p : String)
      → IsConsistent db
      → find_room i.room_id db ≡ none
      → 2 ≤ input.max_participants
      → PasswordFits bcrypt (new_room bcrypt i input hashed) (some p)
      → MayJoin bcrypt i.room_id user_id (some p) (tables_after hashed)
  may_join hashed user_id p c fresh space fits = record {
    room = new_room bcrypt i input hashed;
    found = find_room-add_room_self bcrypt i input hashed db fresh;
    active = refl;
    password_fits = fits;
    place = inl (omega (arith, space, only_host hashed c fresh));
  }

  -- From consistent tables and under an id that no room has: a room that is created with two
  -- places or more, and with a password that is not empty and that bcryptjs recognises from its
  -- hash, lets every user in who gives that password, whatever the access type.
  pub create_room-join :
      (j : Inputs) (user_id : ℕ) (p : String)
      → IsConsistent db
      → find_room i.room_id db ≡ none
      → 2 ≤ input.max_participants
      → input.password ≡ some p
      → non_empty (some p) ≡ some p
      → bcrypt.compare p (bcrypt.hash i.salt salt_rounds p) ≡ true
      → (joined : RoomParticipant) × ((join_room bcrypt j i.room_id user_id
            (some p)
            (create_room bcrypt i input db).1).0
          ≡ ok joined)
  unfolding hash_password
  create_room-join j user_id p c fresh space given full same =
      elim (Bool-cases (is_password input.access_type)) [
        | inl locked ↦
            rw
              (create_room-stores (some (bcrypt.hash i.salt salt_rounds p)) c fresh
                (rw (locked, given) refl))
              ((join_room_iff bcrypt j i.room_id user_id (some p) _).1 (
                may_join (some (bcrypt.hash i.salt salt_rounds p)) user_id p c fresh space
                  (inr (p, bcrypt.hash i.salt salt_rounds p, full, refl, same))))
        | inr open_room ↦ rw (create_room-stores none c fresh (rw open_room refl)) (
            (join_room_iff bcrypt j i.room_id user_id (some p) _).1
              (may_join none user_id p c fresh space (inl open_room)))
      ]
