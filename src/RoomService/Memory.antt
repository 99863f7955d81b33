-- ===== src/RoomService/Memory.antt =====
-- A participation that there has been once stays: the operations change rows and add some, and
-- delete none.
use smartmeet_backend.Prelude.{
  ℕ, ◌≡◌, refl, String, Bool, true, Option, List, [], ◌∷◌, ◌++◌, arith, is_some, find_first,
  proceed-keeps, Bool-cases, inl, inr, any,
}
use smartmeet_backend.Models.{
  Database, RoomParticipant, is_of, is_active_of, update_rows, save_participant, add_participant,
}
use smartmeet_backend.RoomService.{
  Bcrypt, Inputs, CreateRoomInput, hash_password, store_room, create_room, join_room, leave_room,
  host_kick_participant, host_set_participant_muted, update_participant_presence,
  has_ever_participated,
}
use smartmeet_backend.RoomService.Creation.{hash_password_same}
use smartmeet_backend.RoomService.Writes.{
  Change, left, muted, present, change_row, leave_room-keeps, update_participant_presence-keeps,
  host_set_participant_muted-keeps, host_kick_participant-keeps, join_room-keeps,
}

module _ (r u : ℕ) where
  abbrev Has : Database → Type 0
  Has db = has_ever_participated r u db ≡ true

  found_in_append :
      (ps qs : List RoomParticipant)
      → is_some (find_first (is_of r u) ps) ≡ true
      → is_some (find_first (is_of r u) (ps ++ qs)) ≡ true
  found_in_append [] qs h = absurd (cc h)
  found_in_append (p ∷ ps) qs h = ground (arith, found_in_append ps qs)

  add_participant-Has : (p : RoomParticipant) (db : Database) → Has db → Has (add_participant p db)
  unfolding has_ever_participated
  add_participant-Has p db h = found_in_append db.participants (p ∷ []) h

  found_in_update :
      (id : ℕ) (change : RoomParticipant → RoomParticipant) (ps : List RoomParticipant)
      → ((p : RoomParticipant) → is_of r u (change p) ≡ is_of r u p)
      → is_some (find_first (is_of r u) (update_rows id change ps))
        ≡ is_some (find_first (is_of r u) ps)
  found_in_update id change [] same = refl
  found_in_update id change (p ∷ ps) same =
      ground (arith, same p, found_in_update id change ps same)

  save-Has :
      (id : ℕ) (change : RoomParticipant → RoomParticipant) (db : Database)
      → ((p : RoomParticipant) → is_of r u (change p) ≡ is_of r u p)
      → Has db
      → Has (save_participant id change db)
  unfolding has_ever_participated
  save-Has id change db same h = rw (found_in_update id change db.participants same) h

  module _ (bcrypt : Bcrypt) (i : Inputs) (db : Database) (h : Has db) where
    store_room-Has :
        (input : CreateRoomInput) (hashed : Option String)
        → Has (store_room bcrypt i input hashed db).1
    unfolding store_room has_ever_participated
    store_room-Has input hashed =
        elim (Bool-cases (any (is_active_of i.room_id input.host_id) db.participants)) [
          | inl taken ↦ rw taken h
          | inr new ↦ rw new (found_in_append db.participants _ h)
        ]

    pub create_room-Has : (input : CreateRoomInput) → Has (create_room bcrypt i input db).1
    unfolding create_room
    create_room-Has input =
        let same = hash_password_same bcrypt i input db in
        proceed-keeps Has (hash_password bcrypt i input db) (store_room bcrypt i input) (rw same h)
          (λ hashed e. rw same (store_room-Has input hashed))

    pub join_room-Has :
        (room_id user_id : ℕ) (password : Option String)
        → Has (join_room bcrypt i room_id user_id password db).1
    join_room-Has room_id user_id password =
        join_room-keeps Has db h i room_id user_id (λ room. add_participant-Has _ db h) bcrypt
          password

  change_row-is_of :
      (change : Change) (p : RoomParticipant) → is_of r u (change_row change p) ≡ is_of r u p
  change_row-is_of (left now) p = refl
  change_row-is_of (muted b) p = refl
  change_row-is_of (present m k) p = refl

  module _ (room_id user_id : ℕ) (db : Database) (h : Has db) where
    saved : (id : ℕ) (change : Change) → Has (save_participant id (change_row change) db)
    saved id change = save-Has id (change_row change) db (change_row-is_of change) h

    pub leave_room-Has : (now : ℕ) → Has (leave_room now room_id user_id db).1
    leave_room-Has = leave_room-keeps Has db h saved room_id user_id

    pub update_participant_presence-Has :
        (m k : Option Bool) → Has (update_participant_presence room_id user_id m k db).1
    update_participant_presence-Has =
        update_participant_presence-keeps Has db h saved room_id user_id

    pub host_set_participant_muted-Has :
        (target : ℕ) (b : Bool) → Has (host_set_participant_muted room_id user_id target b db).1
    host_set_participant_muted-Has = host_set_participant_muted-keeps Has db h saved room_id user_id

    pub host_kick_participant-Has :
        (now target : ℕ) → Has (host_kick_participant now room_id user_id target db).1
    host_kick_participant-Has = host_kick_participant-keeps Has db h saved room_id user_id
