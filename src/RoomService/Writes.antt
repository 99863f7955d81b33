-- ===== src/RoomService/Writes.antt =====
-- What a request of a room that there is writes: one change of one participation, or one new
-- participation, or nothing.
use smartmeet_backend.Prelude.{
  ℕ, String, Bool, Option, none, some, ◌==◌, proceed-keeps, leb, leb→le, leb_false→lt, count, any,
  Option-cases, Bool-cases, inl, inr,
}
use smartmeet_backend.Models.{
  Database, Room, RoomParticipant, is_active_in, is_active_of, find_room, save_participant,
  add_participant,
}
use smartmeet_backend.RoomService.{
  Bcrypt, Inputs, join_check, join_rest, join_room, leave_room, host_kick_participant,
  host_set_participant_muted, update_participant_presence, get_active_participant, mark_left,
  set_muted, set_presence, assert_can_moderate, allows_moderation, get_room_by_id,
}
use smartmeet_backend.RoomService.Invariant.{
  joined_row, join_commit_full, join_commit_twice, join_commit_admits,
}
use smartmeet_backend.RoomService.Join.{join_check_same}

pub data Change : Type 0 where
  left : (now : ℕ) → Change
  muted : (is_muted : Bool) → Change
  present : (is_muted is_camera_on : Option Bool) → Change

abbrev pub change_row : Change → RoomParticipant → RoomParticipant
change_row (left now) = mark_left now
change_row (muted b) = set_muted b
change_row (present m k) = set_presence m k

module _ {ℓ} (P : Database → Type ℓ) (db : Database) (h : P db) where
  -- What every change of a participation keeps, the requests that change one keep.
  module _ (saved : (id : ℕ) (change : Change) → P (save_participant id (change_row change) db))
      (room_id user_id : ℕ) where
    pub leave_room-keeps : (now : ℕ) → P (leave_room now room_id user_id db).1
    unfolding leave_room
    leave_room-keeps now = elim (Option-cases (get_active_participant room_id user_id db)) [
      | inl out ↦ rw out h
      | inr (p, there) ↦ rw there (saved p.id (left now))
    ]

    pub update_participant_presence-keeps :
        (m k : Option Bool) → P (update_participant_presence room_id user_id m k db).1
    unfolding update_participant_presence
    update_participant_presence-keeps m k =
        elim (Option-cases (get_active_participant room_id user_id db)) [
          | inl out ↦ rw out h
          | inr (p, there) ↦ rw there (saved p.id (present m k))
        ]

    pub host_set_participant_muted-keeps :
        (target : ℕ) (b : Bool) → P (host_set_participant_muted room_id user_id target b db).1
    unfolding host_set_participant_muted assert_can_moderate
    host_set_participant_muted-keeps target b =
        elim (Bool-cases (allows_moderation (get_active_participant room_id user_id db))) [
          | inr refused ↦ rw refused h
          | inl allowed ↦ elim (Option-cases (get_active_participant room_id target db)) [
            | inl out ↦ rw (allowed, out) h
            | inr (p, there) ↦ rw (allowed, there) (saved p.id (muted b))
          ]
        ]

    pub host_kick_participant-keeps :
        (now target : ℕ) → P (host_kick_participant now room_id user_id target db).1
    unfolding host_kick_participant get_room_by_id
    host_kick_participant-keeps now target = elim (Option-cases (find_room room_id db)) [
      | inl missing ↦ rw missing h
      | inr (room, found) ↦ elim (Bool-cases (room.host_id == user_id)) [
        | inr guest ↦ rw (found, guest) h
        | inl is_host ↦ elim (Bool-cases (target == user_id)) [
          | inl self ↦ rw (found, is_host, self) h
          | inr other ↦ elim (Option-cases (get_active_participant room_id target db)) [
            | inl out ↦ rw (found, is_host, other, out) h
            | inr (p, there) ↦ rw (found, is_host, other, there) (saved p.id (left now))
          ]
        ]
      ]
    ]

  -- What every new participation of the user keeps, a join keeps.
  module _ (i : Inputs) (room_id user_id : ℕ)
      (added : (room : Room) → P (add_participant (joined_row i room_id user_id room) db)) where
    join_rest-keeps :
        (room : Room) (existing : Option RoomParticipant)
        → P (join_rest i room_id user_id (room, existing) db).1
    unfolding join_rest
    join_rest-keeps room (some p) = h
    join_rest-keeps room none =
        elim (Bool-cases
          (leb room.max_participants (count (is_active_in room_id) db.participants))) [
            | inl full ↦ rw (join_commit_full i room_id user_id room db (leb→le _ _ full)) h
            | inr space ↦ elim (Bool-cases (any (is_active_of room_id user_id) db.participants)) [
              | inl old ↦
                  rw (join_commit_twice i room_id user_id room db (leb_false→lt _ _ space) old) h
              | inr new ↦
                  rw (join_commit_admits i room_id user_id room db (leb_false→lt _ _ space) new)
                    (added room)
            ]
          ]

    pub join_room-keeps :
        (bcrypt : Bcrypt) (password : Option String)
        → P (join_room bcrypt i room_id user_id password db).1
    unfolding join_room
    join_room-keeps bcrypt password =
        let same = join_check_same bcrypt i room_id user_id password db in
        proceed-keeps P (join_check bcrypt room_id user_id password db)
          (join_rest i room_id user_id) (rw same h)
          (λ read e. rw same (join_rest-keeps read.0 read.1))
