-- ===== src/RoomService/Join.antt =====
-- When `joinRoom` succeeds, and what it leaves behind.
use smartmeet_backend.Prelude.{
  ℕ, String, ◌<◌, ◌≡◌, refl, ◌↔◌, ◌⊎◌, inl, inr, true, Option, none, some, [], ◌∷◌, arith, ok, err,
  count, ◌∙◌, leb, leb→le, leb_false→lt, proceed-eq-ok, proceed-fails, Bool-cases, Option-cases,
}
use smartmeet_backend.Errors.{Failure}
use smartmeet_backend.Models.{
  Database, Room, RoomParticipant, find_room, is_active_in, is_active_of, add_participant,
}
use smartmeet_backend.RoomService.{
  Bcrypt, Inputs, check_password, join_check, join_commit, join_rest, join_room,
  get_active_participant,
}
use smartmeet_backend.RoomService.Counting.{any_of_find_first, find_first_append}
use smartmeet_backend.RoomService.Invariant.{joined_row, join_commit_admits, join_commit_full}
use smartmeet_backend.RoomService.Passwords.{
  PasswordFits, check_password_passes, check_password_sound, check_password_same,
}

module _ (bcrypt : Bcrypt) where
  -- The conditions under which a user may join, read off the tables.
  pub record MayJoin (room_id user_id : ℕ) (password : Option String) (db : Database) : Type 0 where
    pub room : Room
    pub found : find_room room_id db ≡ some room
    pub active : room.is_active ≡ true
    pub password_fits : PasswordFits bcrypt room password
    pub place :
        (count (is_active_in room_id) db.participants < room.max_participants)
        ⊎ ((p : RoomParticipant) × (get_active_participant room_id user_id db ≡ some p))

module _ (bcrypt : Bcrypt) (i : Inputs) (room_id user_id : ℕ) (password : Option String) where
  join_check_lem :
      (room : Room) (db : Database)
      → find_room room_id db ≡ some room
      → room.is_active ≡ true
      → PasswordFits bcrypt room password
      → join_check bcrypt room_id user_id password db
        ≡ (ok (room, get_active_participant room_id user_id db), db)
  unfolding join_check
  join_check_lem room db found active fits =
      ground (arith, check_password_passes bcrypt password room db fits)

  pub join_check_sound :
      (room : Room) (existing : Option RoomParticipant) (db : Database)
      → (join_check bcrypt room_id user_id password db).0 ≡ ok (room, existing)
      → (find_room room_id db ≡ some room)
        × (room.is_active ≡ true)
        × ((check_password bcrypt room password db).0 ≡ ok tt)
        × (existing ≡ get_active_participant room_id user_id db)
  unfolding join_check
  join_check_sound room existing db h = ground (arith, check_password_same bcrypt password room db)

  abbrev pub HasPlace : Room → Database → Type 0
  HasPlace room db =
      (count (is_active_in room_id) db.participants < room.max_participants)
      ⊎ ((p : RoomParticipant) × (get_active_participant room_id user_id db ≡ some p))

  pub join_rest_existing :
      (room : Room) (p : RoomParticipant) (db : Database)
      → join_rest i room_id user_id (room, some p) db ≡ (ok p, db)
  unfolding join_rest
  join_rest_existing room p db = refl

  pub join_rest_admits :
      (room : Room) (db : Database)
      → count (is_active_in room_id) db.participants < room.max_participants
      → get_active_participant room_id user_id db ≡ none
      → join_rest i room_id user_id (room, none) db ≡ (
        ok (joined_row i room_id user_id room),
        add_participant (joined_row i room_id user_id room) db,
      )
  unfolding join_rest get_active_participant
  join_rest_admits room db space out =
      join_commit_admits i room_id user_id room db space
        (any_of_find_first (is_active_of room_id user_id) db.participants out)

  join_rest_succeeds :
      (room : Room) (db : Database)
      → HasPlace room db
      → (p : RoomParticipant) × ((join_rest i room_id user_id
            (room, get_active_participant room_id user_id db)
            db).0
          ≡ ok p)
  join_rest_succeeds room db place =
      elim (Option-cases (get_active_participant room_id user_id db)) [
        | inr (p, in_room) ↦ (p, rw (in_room, join_rest_existing room p db) refl)
        | inl out ↦ elim place [
          | inl space ↦
              (joined_row i room_id user_id room, rw (out, join_rest_admits room db space out) refl)
          | inr (p, in_room) ↦ ground arith
        ]
      ]

  join_rest_sound :
      (room : Room) (p : RoomParticipant) (db : Database)
      → (join_rest i room_id user_id (room, get_active_participant room_id user_id db) db).0 ≡ ok p
      → HasPlace room db
  unfolding join_rest
  join_rest_sound room p db h = elim (Option-cases (get_active_participant room_id user_id db)) [
    | inr there ↦ inr there
    | inl out ↦
        elim (Bool-cases
          (leb room.max_participants (count (is_active_in room_id) db.participants))) [
            | inr space ↦ inl (leb_false→lt _ _ space)
            | inl full ↦
                ground (arith, out, join_commit_full i room_id user_id room db (leb→le _ _ full))
          ]
  ]

  pub join_check_same : (db : Database) → (join_check bcrypt room_id user_id password db).1 ≡ db
  unfolding join_check
  join_check_same db = elim (Option-cases (find_room room_id db)) [
    | inl missing ↦ ground arith
    | inr (room, found) ↦ ground (arith, check_password_same bcrypt password room db)
  ]

  MayJoin-of_halves :
      (db : Database) (p : RoomParticipant) (read : Room × Option RoomParticipant)
      → (join_check bcrypt room_id user_id password db).0 ≡ ok read
      → (join_rest i room_id user_id read db).0 ≡ ok p
      → MayJoin bcrypt room_id user_id password db
  MayJoin-of_halves db p (room, existing) checked rest =
      let (found, active, fits, same) = join_check_sound room existing db checked in
      record {
        room = room;
        found = found;
        active = active;
        password_fits = check_password_sound bcrypt password room db fits;
        place = join_rest_sound room p db (rw same at rest);
      }

  pub join_room_sound :
      (db : Database) (p : RoomParticipant)
      → (join_room bcrypt i room_id user_id password db).0 ≡ ok p
      → MayJoin bcrypt room_id user_id password db
  unfolding join_room
  join_room_sound db p h =
      let (read, checked, rest) =
        proceed-eq-ok (join_check bcrypt room_id user_id password db) (join_rest i room_id user_id)
          h in
      MayJoin-of_halves db p read checked (rw (join_check_same db) at rest)

  join_room_complete :
      (db : Database)
      → MayJoin bcrypt room_id user_id password db
      → (p : RoomParticipant) × ((join_room bcrypt i room_id user_id password db).0 ≡ ok p)
  unfolding join_room
  join_room_complete db m =
      rw (join_check_lem m.room db m.found m.active m.password_fits)
        (join_rest_succeeds m.room db m.place)

  -- `joinRoom` succeeds exactly when the room is there and has not ended, the password fits, and
  -- the user is in the room already or a place is free.
  pub join_room_iff :
      (db : Database)
      → ((p : RoomParticipant) × ((join_room bcrypt i room_id user_id password db).0 ≡ ok p))
        ↔ MayJoin bcrypt room_id user_id password db
  join_room_iff db = (λ h. join_room_sound db h.0 h.1, join_room_complete db)

  -- The transaction puts in the row that the next query finds.
  joined_row_found :
      (room : Room) (db : Database)
      → get_active_participant room_id user_id db ≡ none
      → get_active_participant room_id user_id
          (add_participant (joined_row i room_id user_id room) db)
        ≡ some (joined_row i room_id user_id room)
  unfolding get_active_participant
  joined_row_found room db out =
      find_first_append (is_active_of room_id user_id) db.participants
        (joined_row i room_id user_id room ∷ []) out
      ∙ ground arith

  join_rest_enters :
      (room : Room) (p : RoomParticipant) (db : Database)
      → (join_rest i room_id user_id (room, get_active_participant room_id user_id db) db).0 ≡ ok p
      → get_active_participant room_id user_id
          (join_rest i room_id user_id (room, get_active_participant room_id user_id db) db).1
        ≡ some p
  join_rest_enters room p db h = elim (Option-cases (get_active_participant room_id user_id db)) [
    | inr (q, there) ↦
        rw (there, join_rest_existing room q db)
          (ground (arith, there, join_rest_existing room q db))
    | inl out ↦ elim (join_rest_sound room p db h) [
      | inr (q, there) ↦ ground arith
      | inl space ↦
          rw (out, join_rest_admits room db space out)
            (ground (arith, out, join_rest_admits room db space out, joined_row_found room db out))
    ]
  ]

  -- Where the checks pass, a join is its second half.
  pub join_room_passed :
      (room : Room) (db : Database)
      → find_room room_id db ≡ some room
      → room.is_active ≡ true
      → PasswordFits bcrypt room password
      → join_room bcrypt i room_id user_id password db
        ≡ join_rest i room_id user_id (room, get_active_participant room_id user_id db) db
  unfolding join_room
  join_room_passed room db found active fits = rw (join_check_lem room db found active fits) refl

  MayJoin-join_room :
      (db : Database) (m : MayJoin bcrypt room_id user_id password db)
      → join_room bcrypt i room_id user_id password db
        ≡ join_rest i room_id user_id (m.room, get_active_participant room_id user_id db) db
  MayJoin-join_room db m = join_room_passed m.room db m.found m.active m.password_fits

  -- After a join that succeeds the user is an active participant: the row that was returned.
  pub join_room_enters :
      (db : Database) (p : RoomParticipant)
      → (join_room bcrypt i room_id user_id password db).0 ≡ ok p
      → get_active_participant room_id user_id (join_room bcrypt i room_id user_id password db).1
        ≡ some p
  join_room_enters db p h =
      let m = join_room_sound db p h in
      rw (MayJoin-join_room db m) (join_rest_enters m.room p db (rw (MayJoin-join_room db m) at h))

  join_rest_fails_same :
      (read : Room × Option RoomParticipant) (e : Failure) (db : Database)
      → (join_rest i room_id user_id read db).0 ≡ err e
      → (join_rest i room_id user_id read db).1 ≡ db
  unfolding join_rest join_commit
  join_rest_fails_same (room, some p) e db h = refl
  join_rest_fails_same (room, none) e db h = ground arith

  -- A join that fails writes nothing.
  pub join_room_fails_same :
      (db : Database) (e : Failure)
      → (join_room bcrypt i room_id user_id password db).0 ≡ err e
      → (join_room bcrypt i room_id user_id password db).1 ≡ db
  unfolding join_room
  join_room_fails_same db e h =
      proceed-fails (join_check bcrypt room_id user_id password db) (join_rest i room_id user_id) db
        (join_check_same db) (λ read k. join_rest_fails_same read e db k) h
