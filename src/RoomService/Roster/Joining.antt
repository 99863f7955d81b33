-- ===== src/RoomService/Roster/Joining.antt =====
-- `joinRoom` against the contract's rule.
use smartmeet_backend.Prelude.{
  ℕ, String, ◌≤◌, ◌≡◌, refl, inl, inr, true, Option, none, arith, count, Bool-cases, Option-cases,
  leb, leb→le, leb_false→lt, ◌==◌, ◌&&◌,
}
use smartmeet_backend.Constants.{is_password}
use smartmeet_backend.Models.{Database, Room, find_room, is_active_in}
use smartmeet_backend.RoomService.{
  Bcrypt, Inputs, join_rest, join_room, get_active_participant, non_empty,
}
use smartmeet_backend.RoomService.Invariant.{joined_row, join_commit_full}
use smartmeet_backend.RoomService.Passwords.{PasswordFits}
use smartmeet_backend.RoomService.Join.{
  MayJoin, join_room_sound, join_room_fails_same, join_room_passed, join_rest_existing,
  join_rest_admits,
}
use smartmeet_backend.RoomService.Roster.{refused, join, sit, opens, rule}
use smartmeet_backend.RoomService.Roster.View.{seat_in, view, view-add_participant}
use smartmeet_backend.RoomService.Roster.Seen.{Result-cases, seen, reply_seat, seen-err}

module _ (bcrypt : Bcrypt) (i : Inputs) (room_id user_id : ℕ) (password : Option String) where
  opens-PasswordFits :
      (room : Room) → opens bcrypt room password ≡ true → PasswordFits bcrypt room password
  unfolding opens non_empty
  opens-PasswordFits room h = elim (Bool-cases (is_password room.access_type)) [
    | inr open_room ↦ inl open_room
    | inl asks ↦ elim (Option-cases password) [
      | inl missing ↦ ground arith
      | inr (given, e) ↦ elim (Option-cases room.password_hash) [
        | inl unset ↦ ground arith
        | inr (hashed, f) ↦ elim (Bool-cases (Prim.Native.String.len given == 0)) [
          | inl empty ↦ ground arith
          | inr full ↦ inr (given, hashed, ground arith, f, ground arith)
        ]
      ]
    ]
  ]

  PasswordFits-opens :
      (room : Room) → PasswordFits bcrypt room password → opens bcrypt room password ≡ true
  unfolding opens non_empty
  PasswordFits-opens room (inl open_room) = rw open_room refl
  PasswordFits-opens room (inr (given, hashed, e, f, same)) = elim (Option-cases password) [
    | inl missing ↦ ground arith
    | inr (text, here) ↦ elim (Bool-cases (Prim.Native.String.len text == 0)) [
      | inl empty ↦ ground arith
      | inr full ↦ ground arith
    ]
  ]

  -- A join that is not allowed is refused, and changes nothing.
  join_shut :
      (db : Database)
      → (MayJoin bcrypt room_id user_id password db → ⊥)
      → seen reply_seat (join_room bcrypt i room_id user_id password db) ≡ (refused, view db)
  join_shut db forbidden = elim (Result-cases (join_room bcrypt i room_id user_id password db).0) [
    | inl (p, h) ↦ absurd (forbidden (join_room_sound bcrypt i room_id user_id password db p h))
    | inr (e, h) ↦
        seen-err reply_seat (join_room bcrypt i room_id user_id password db) db h
          (join_room_fails_same bcrypt i room_id user_id password db e h)
  ]

  join_rest_full :
      (room : Room) (db : Database)
      → room.max_participants ≤ count (is_active_in room_id) db.participants
      → seen reply_seat (join_rest i room_id user_id (room, none) db) ≡ (refused, view db)
  unfolding join_rest
  join_rest_full room db full = rw (join_commit_full i room_id user_id room db full) refl

  seen-join_rest :
      (room : Room) (db : Database)
      → seen reply_seat
          (join_rest i room_id user_id (room, get_active_participant room_id user_id db) db)
        ≡ sit (seat_in (get_active_participant room_id user_id db)) room room_id user_id (view db)
  seen-join_rest room db = elim (Option-cases (get_active_participant room_id user_id db)) [
    | inr (p, there) ↦
        rw (there, join_rest_existing bcrypt i room_id user_id password room p db) refl
    | inl out ↦
        elim (Bool-cases
          (leb room.max_participants (count (is_active_in room_id) db.participants))) [
            | inl full ↦ rw (out, full) (join_rest_full room db (leb→le _ _ full))
            | inr space ↦
                rw
                  (
                    out,
                    space,
                    join_rest_admits bcrypt i room_id user_id password room db
                        (leb_false→lt _ _ space) out,
                    view-add_participant (joined_row i room_id user_id room) db refl out,
                  )
                  refl
          ]
  ]

  pub seen-join :
      (db : Database)
      → seen reply_seat (join_room bcrypt i room_id user_id password db)
        ≡ rule bcrypt (join i room_id user_id password) (view db)
  unfolding rule
  seen-join db = elim (Option-cases (find_room room_id db)) [
    | inl missing ↦ rw missing (join_shut db (λ m. ground (arith, m.found)))
    | inr (room, found) ↦ elim (Bool-cases (room.is_active && opens bcrypt room password)) [
      | inr shut ↦
          rw (found, shut)
            (join_shut db
              (λ m. ground (arith, m.found, m.active, PasswordFits-opens m.room m.password_fits)))
      | inl may ↦
          rw
            (
              found,
              may,
              join_room_passed bcrypt i room_id user_id password room db found (ground arith)
                  (opens-PasswordFits room (ground arith)),
            )
            (seen-join_rest room db)
    ]
  ]
