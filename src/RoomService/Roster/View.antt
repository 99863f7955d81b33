-- ===== src/RoomService/Roster/View.antt =====
-- The roster that the tables stand for, and how it moves with the writes of the room service.
use smartmeet_backend.Prelude.{
  ℕ, suc, ◌+◌, ◌≡◌, refl, Bool, true, Option, none, some, List, [], ◌∷◌, arith, ◌==◌, count-append,
  Option-cases, ◌∙◌, ◌&&◌, ◌-◌, count, find_first, Bool-cases, inl, inr, if◌then◌else◌,
}
use smartmeet_backend.Models.{
  Database, Room, RoomParticipant, is_active_in, is_active_of, find_room, save_participant,
  update_rows, add_participant, add_room,
}
use smartmeet_backend.RoomService.{get_active_participant, mark_left}
use smartmeet_backend.RoomService.Counting.{
  find_first_sat, find_first_append, find_first_append_some, count-update_rows,
}
use smartmeet_backend.RoomService.Moderation.{find_first-update_rows}
use smartmeet_backend.RoomService.Invariant.{IsConsistent}
use smartmeet_backend.RoomService.Departure.{
  HasDistinctIds, update_rows_absent, found_has_id, save_participant-others, mark_left_removes,
}
use smartmeet_backend.RoomService.Roster.{
  Seat, Roster, put_seat, put_count, enter, vacate, reseat, put_room, open_room,
}

abbrev pub seat_of : RoomParticipant → Seat
seat_of p = record { role = p.role; is_muted = p.is_muted; is_camera_on = p.is_camera_on }

abbrev pub seat_in : Option RoomParticipant → Option Seat
seat_in none = none
seat_in (some p) = some (seat_of p)

abbrev pub view : Database → Roster
view db = record {
  room = λ r. find_room r db;
  seat = λ r u. seat_in (get_active_participant r u db);
  taken = λ r. count (is_active_in r) db.participants;
}

module _ (f q : RoomParticipant → Bool) (change : RoomParticipant → RoomParticipant) where
  -- A change of the one row that a query finds moves a count by that row.
  pub count-update_row :
      (ps : List RoomParticipant) {p : RoomParticipant}
      → HasDistinctIds ps
      → find_first f ps ≡ some p
      → count q (update_rows p.id change ps) + (if q p then 1 else 0)
        ≡ count q ps + (if q (change p) then 1 else 0)
  count-update_row [] d h = ground arith
  count-update_row (r ∷ ps) {p} d h = elim (Bool-cases (f r)) [
    | inl here ↦
        let e : r ≡ p = ground arith in
        ground (arith, e, d p.id, update_rows_absent f p.id change ps)
    | inr there ↦ ground (
      arith,
      d p.id,
      found_has_id f f change ps {p = p},
      count-update_row ps {p = p} (λ id. ground (arith, d id)),
    )
  ]

-- The row that a query on a room and a user finds is of them.
active_row :
    (room_id user_id : ℕ) (db : Database) {p : RoomParticipant}
    → get_active_participant room_id user_id db ≡ some p
    → (is_active_of room_id user_id p ≡ true) × (p.room_id ≡ room_id)
unfolding get_active_participant
active_row room_id user_id db {p} there =
    let h = find_first_sat (is_active_of room_id user_id) db.participants there in (h, ground arith)

module _ (change : RoomParticipant → RoomParticipant) (room_id user_id : ℕ) (db : Database)
    {p : RoomParticipant} where
  -- How many places a room has taken after a change of one participation.
  taken-save :
      (r : ℕ)
      → HasDistinctIds db.participants
      → get_active_participant room_id user_id db ≡ some p
      → count (is_active_in r) (save_participant p.id change db).participants
          + (if is_active_in r p then 1 else 0)
        ≡ count (is_active_in r) db.participants + (if is_active_in r (change p) then 1 else 0)
  unfolding get_active_participant
  taken-save r d there =
      count-update_row (is_active_of room_id user_id) (is_active_in r) change db.participants d
        there

  seat-save :
      (s : Option Seat) (r u : ℕ)
      → HasDistinctIds db.participants
      → get_active_participant room_id user_id db ≡ some p
      → ((q : RoomParticipant) → is_active_of r u (change q) ≡ true → is_active_of r u q ≡ true)
      → seat_in (get_active_participant room_id user_id (save_participant p.id change db)) ≡ s
      → seat_in (get_active_participant r u (save_participant p.id change db))
        ≡ put_seat room_id user_id s (view db).seat r u
  seat-save s r u d there shrinks own = elim (Bool-cases (r == room_id && u == user_id)) [
    | inl this ↦
        let e : r ≡ room_id = ground arith in
        let f : u ≡ user_id = ground arith in rw (this, e, f) own
    | inr other ↦
        rw
          (
            other,
            save_participant-others change room_id user_id r u db d there shrinks
                (λ e. ground arith),
          )
          refl
  ]

module _ (room_id user_id : ℕ) (db : Database) {p : RoomParticipant} where
  -- A participation that is marked as left is a seat given up.
  pub view-mark_left :
      (now : ℕ)
      → IsConsistent db
      → HasDistinctIds db.participants
      → get_active_participant room_id user_id db ≡ some p
      → view (save_participant p.id (mark_left now) db) ≡ vacate room_id user_id (view db)
  view-mark_left now c d there =
      λ i. record { room = λ r. find_room r db; seat = λ r u. seats r u i; taken = λ r. places r i }
    where
      seats :
          (r u : ℕ)
          → seat_in (get_active_participant r u (save_participant p.id (mark_left now) db))
            ≡ put_seat room_id user_id none (view db).seat r u
      seats r u =
          seat-save (mark_left now) room_id user_id db none r u d there (λ q h. ground arith)
            (rw (mark_left_removes now room_id user_id db c there) refl)

      places :
          (r : ℕ)
          → count (is_active_in r) (save_participant p.id (mark_left now) db).participants
            ≡ put_count room_id (count (is_active_in room_id) db.participants - 1) (view db).taken r
      places r = ground (
        arith,
        active_row room_id user_id db there,
        taken-save (mark_left now) room_id user_id db r d there,
      )

  -- A participation that is changed, and not ended, is a seat changed.
  pub view-change :
      (change : RoomParticipant → RoomParticipant)
      → ((r u : ℕ) (q : RoomParticipant) → is_active_of r u (change q) ≡ is_active_of r u q)
      → ((r : ℕ) (q : RoomParticipant) → is_active_in r (change q) ≡ is_active_in r q)
      → HasDistinctIds db.participants
      → get_active_participant room_id user_id db ≡ some p
      → view (save_participant p.id change db)
        ≡ reseat room_id user_id (seat_of (change p)) (view db)
  unfolding get_active_participant
  view-change change keep_of keep_in d there = λ i. record {
    room = λ r. find_room r db;
    seat = λ r u. seats r u i;
    taken = λ r. count-update_rows (is_active_in r) p.id change (keep_in r) db.participants i;
  }
    where
      seats :
          (r u : ℕ)
          → seat_in (get_active_participant r u (save_participant p.id change db))
            ≡ put_seat room_id user_id (some (seat_of (change p))) (view db).seat r u
      seats r u =
          seat-save change room_id user_id db (some (seat_of (change p))) r u d there
            (λ q h. rw (keep_of r u q) at h)
            (rw
              (find_first-update_rows (is_active_of room_id user_id) change db.participants
                (keep_of room_id user_id) there)
              refl)

-- A new active participation of a user who has none in the room is a seat taken.
pub view-add_participant :
    (p : RoomParticipant) (db : Database)
    → p.left_at ≡ none
    → get_active_participant p.room_id p.user_id db ≡ none
    → view (add_participant p db) ≡ enter p.room_id p.user_id (seat_of p) (view db)
unfolding get_active_participant
view-add_participant p db active out =
    λ i. record { room = λ r. find_room r db; seat = λ r u. seats r u i; taken = λ r. places r i }
  where
    seats :
        (r u : ℕ)
        → seat_in (get_active_participant r u (add_participant p db))
          ≡ put_seat p.room_id p.user_id (some (seat_of p)) (view db).seat r u
    seats r u = elim (Option-cases (find_first (is_active_of r u) db.participants)) [
      | inl none_there ↦
          rw (none_there, find_first_append (is_active_of r u) db.participants (p ∷ []) none_there)
            (ground arith)
      | inr (q, there) ↦
          rw (there, find_first_append_some (is_active_of r u) db.participants (p ∷ []) there)
            (ground arith)
    ]

    places :
        (r : ℕ)
        → count (is_active_in r) (add_participant p db).participants
          ≡ put_count p.room_id
              (suc (count (is_active_in p.room_id) db.participants))
              (view db).taken
              r
    places r = rw (count-append (is_active_in r) db.participants (p ∷ [])) (ground arith)

-- A new room is seen under its id, and changes no other.
pub view-add_room :
    (room : Room) (db : Database)
    → find_room room.id db ≡ none
    → view (add_room room db) ≡ open_room room (view db)
unfolding get_active_participant
view-add_room room db fresh = λ i. record {
  room = λ r. rooms r i;
  seat = λ r u. seat_in (find_first (is_active_of r u) db.participants);
  taken = λ r. count (is_active_in r) db.participants;
}
  where
    rooms : (r : ℕ) → find_room r (add_room room db) ≡ put_room room (view db).room r
    rooms r = elim (Bool-cases (room.id == r)) [
      | inl this ↦
          let e : room.id ≡ r = ground arith in
          rw this
            (find_first_append (λ q. q.id == r) db.rooms (room ∷ []) (rw e at fresh) ∙ ground arith)
      | inr other ↦ elim (Option-cases (find_room r db)) [
        | inl missing ↦
            rw (other, missing, find_first_append (λ q. q.id == r) db.rooms (room ∷ []) missing)
              (ground arith)
        | inr (q, found) ↦
            rw (other, found, find_first_append_some (λ q. q.id == r) db.rooms (room ∷ []) found)
              refl
      ]
    ]
