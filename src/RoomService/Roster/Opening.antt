-- ===== src/RoomService/Roster/Opening.antt =====
-- `createRoom` against the contract's rule.
use smartmeet_backend.Prelude.{
  String, ◌≡◌, refl, inl, inr, Option, none, some, ok, err, Result, Bool-cases, Option-cases,
}
use smartmeet_backend.Errors.{illegal_arguments}
use smartmeet_backend.Constants.{is_password}
use smartmeet_backend.Models.{Database, add_room, find_room, is_active_of}
use smartmeet_backend.RoomService.{
  Bcrypt, Inputs, CreateRoomInput, hash_password, new_room, create_room, get_active_participant,
}
use smartmeet_backend.RoomService.Invariant.{IsConsistent}
use smartmeet_backend.RoomService.Roster.{opened, asked_hash, create, rule}
use smartmeet_backend.RoomService.Roster.View.{view, view-add_participant, view-add_room}
use smartmeet_backend.RoomService.Creation.{store_room_lem, host_row, host_is_new}
use smartmeet_backend.RoomService.Counting.{find_first-none, count_zero_of_any}
use smartmeet_backend.RoomService.Roster.Seen.{seen}

-- What a missing password is answered with.
abbrev given_hash : Option (Option String) → Result (Option String)
given_hash none = err illegal_arguments
given_hash (some hashed) = ok hashed

module _ (bcrypt : Bcrypt) (i : Inputs) (input : CreateRoomInput) (db : Database) where
  hash_password-asked_hash :
      hash_password bcrypt i input db ≡ (given_hash (asked_hash bcrypt i input), db)
  unfolding hash_password asked_hash
  hash_password-asked_hash = elim (Bool-cases (is_password input.access_type)) [
    | inr open_to_all ↦ rw open_to_all refl
    | inl locked ↦ elim (Option-cases input.password) [
      | inl missing ↦ rw (locked, missing) refl
      | inr (given, there) ↦ rw (locked, there) refl
    ]
  ]

  nobody_sits :
      (hashed : Option String)
      → find_room i.room_id db ≡ none
      → IsConsistent db
      → get_active_participant i.room_id input.host_id
          (add_room (new_room bcrypt i input hashed) db)
        ≡ none
  unfolding get_active_participant
  nobody_sits hashed fresh c =
      find_first-none (is_active_of i.room_id input.host_id) db.participants (
        count_zero_of_any (is_active_of i.room_id input.host_id) db.participants
          (host_is_new bcrypt i input db fresh c))

  -- Nobody sits in a room that is not there yet.
  pub seen-create :
      find_room i.room_id db ≡ none
      → IsConsistent db
      → seen opened (create_room bcrypt i input db) ≡ rule bcrypt (create i input) (view db)
  unfolding create_room rule
  seen-create fresh c = elim (Option-cases (asked_hash bcrypt i input)) [
    | inl missing ↦ rw (hash_password-asked_hash, missing) refl
    | inr (hashed, there) ↦
        rw
          (
            hash_password-asked_hash,
            there,
            store_room_lem bcrypt i input hashed db fresh c,
            view-add_participant (host_row bcrypt i input)
                (add_room (new_room bcrypt i input hashed) db) refl (nobody_sits hashed fresh c),
            view-add_room (new_room bcrypt i input hashed) db fresh,
          )
          refl
  ]
