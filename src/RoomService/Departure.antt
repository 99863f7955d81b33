-- ===== src/RoomService/Departure.antt =====
-- What `leaveRoom` leaves behind.
use smartmeet_backend.Prelude.{
  ℕ, ◌≤◌, ◌≡◌, refl, ◌≢◌, inl, inr, Bool, true, false, none, some, List, [], ◌∷◌, arith, ok, err,
  count, find_first, Bool-cases, Option-cases, ◌==◌,
}
use smartmeet_backend.Errors.{not_found_error}
use smartmeet_backend.Models.{
  Database, RoomParticipant, is_active_of, save_participant, update_rows,
}
use smartmeet_backend.RoomService.{leave_room, get_active_participant, mark_left}
use smartmeet_backend.RoomService.Counting.{find_first-none, find_first_sat, count-update_rows-lt}
use smartmeet_backend.RoomService.Invariant.{IsConsistent}

-- Row ids are primary keys.
abbrev pub HasDistinctIds : List RoomParticipant → Type 0
HasDistinctIds ps = (id : ℕ) → count (λ p. p.id == id) ps ≤ 1

-- Marking the active row of a user as left leaves the user with no active row.
pub mark_left_removes :
    (now room_id user_id : ℕ) (db : Database) {p : RoomParticipant}
    → IsConsistent db
    → get_active_participant room_id user_id db ≡ some p
    → get_active_participant room_id user_id (save_participant p.id (mark_left now) db) ≡ none
unfolding get_active_participant
mark_left_removes now room_id user_id db {p} c found =
    find_first-none (is_active_of room_id user_id)
      (update_rows p.id (mark_left now) db.participants)
      (omega (
        arith,
        c.unique room_id user_id,
        count-update_rows-lt (is_active_of room_id user_id) p.id (mark_left now) (λ q. ground arith)
            db.participants found refl,
      ))

leave_room_absent :
    (now room_id user_id : ℕ) (db : Database)
    → get_active_participant room_id user_id db ≡ none
    → leave_room now room_id user_id db
      ≡ (err (not_found_error "Active room participation not found"), db)
unfolding leave_room
leave_room_absent now room_id user_id db out = ground arith

leave_room_present :
    (now room_id user_id : ℕ) (db : Database) {p : RoomParticipant}
    → get_active_participant room_id user_id db ≡ some p
    → leave_room now room_id user_id db
      ≡ (ok (mark_left now p), save_participant p.id (mark_left now) db)
unfolding leave_room
leave_room_present now room_id user_id db there = ground arith

-- In consistent tables: after a `leaveRoom`, whether it succeeds or not, the user has no active
-- participation in the room, and leaving again is refused as not found and changes nothing.
pub leave_room_twice :
    (now later room_id user_id : ℕ) (db : Database)
    → IsConsistent db
    → let after = (leave_room now room_id user_id db).1 in
      (get_active_participant room_id user_id after ≡ none)
      × (leave_room later room_id user_id after
          ≡ (err (not_found_error "Active room participation not found"), after))
leave_room_twice now later room_id user_id db c =
    (gone, leave_room_absent later room_id user_id _ gone)
  where
    gone : get_active_participant room_id user_id (leave_room now room_id user_id db).1 ≡ none
    gone = elim (Option-cases (get_active_participant room_id user_id db)) [
      | inl out ↦ rw (leave_room_absent now room_id user_id db out) out
      | inr (p, there) ↦
          rw (leave_room_present now room_id user_id db there)
            (mark_left_removes now room_id user_id db c there)
    ]

module _ (q : RoomParticipant → Bool) (id : ℕ) (change : RoomParticipant → RoomParticipant) where
  -- An update of rows with an id that no row has changes nothing.
  pub update_rows_absent :
      (ps : List RoomParticipant) → count (λ p. p.id == id) ps ≡ 0 → update_rows id change ps ≡ ps
  update_rows_absent [] h = refl
  update_rows_absent (p ∷ ps) h = ground (arith, update_rows_absent ps)

module _ (q other : RoomParticipant → Bool) (change : RoomParticipant → RoomParticipant) where
  pub found_has_id :
      (ps : List RoomParticipant) {p : RoomParticipant}
      → find_first q ps ≡ some p
      → 1 ≤ count (λ r. r.id == p.id) ps
  found_has_id [] h = ground arith
  found_has_id (r ∷ ps) {p} h = ground (arith, found_has_id ps {p = p})

  -- A change of the one row that a query finds is not seen by a query that finds neither the row
  -- nor what becomes of it.
  find_first-update_rows_other :
      (ps : List RoomParticipant) {p : RoomParticipant}
      → HasDistinctIds ps
      → find_first q ps ≡ some p
      → other p ≡ false
      → other (change p) ≡ false
      → find_first other (update_rows p.id change ps) ≡ find_first other ps
  find_first-update_rows_other [] d h a b = refl
  find_first-update_rows_other (r ∷ ps) {p} d h a b = elim (Bool-cases (q r)) [
    | inl here ↦
        let e : r ≡ p = ground arith in
        ground (arith, e, d p.id, update_rows_absent other p.id change ps)
    | inr there ↦ ground (
      arith,
      d p.id,
      found_has_id ps {p = p},
      find_first-update_rows_other ps {p = p} (λ id. ground (arith, d id)),
    )
  ]

-- Whose row an update is, another user's participation is as before.
pub save_participant-others :
    (change : RoomParticipant → RoomParticipant) (room_id user_id r u : ℕ) (db : Database)
    {p : RoomParticipant}
    → HasDistinctIds db.participants
    → get_active_participant room_id user_id db ≡ some p
    → ((q : RoomParticipant) → is_active_of r u (change q) ≡ true → is_active_of r u q ≡ true)
    → (r ≡ room_id → u ≢ user_id)
    → get_active_participant r u (save_participant p.id change db) ≡ get_active_participant r u db
unfolding get_active_participant
save_participant-others change room_id user_id r u db {p} d found shrinks other =
    let mine = find_first_sat (is_active_of room_id user_id) db.participants found in
    let theirs : is_active_of r u p ≡ false = not_both p mine in
    find_first-update_rows_other (is_active_of room_id user_id) (is_active_of r u) change
      db.participants d found theirs
      (elim (Bool-cases (is_active_of r u (change p))) [
        | inr apart ↦ apart
        | inl hit ↦ ground (arith, shrinks p hit)
      ])
  where
    not_both :
        (q : RoomParticipant) → is_active_of room_id user_id q ≡ true → is_active_of r u q ≡ false
    not_both q h = elim (Bool-cases (is_active_of r u q)) [
      | inr apart ↦ apart
      | inl both ↦
          let same_room : r ≡ room_id = ground arith in
          let same_user : u ≡ user_id = ground arith in absurd (other same_room same_user)
    ]

-- Where participations have distinct ids: when a user leaves a room, no other active
-- participation changes, be it another user's or in another room.
pub leave_room-others :
    (now room_id user_id r u : ℕ) (db : Database)
    → HasDistinctIds db.participants
    → (r ≡ room_id → u ≢ user_id)
    → get_active_participant r u (leave_room now room_id user_id db).1
      ≡ get_active_participant r u db
leave_room-others now room_id user_id r u db d other =
    elim (Option-cases (get_active_participant room_id user_id db)) [
      | inl out ↦ rw (leave_room_absent now room_id user_id db out) refl
      | inr (p, there) ↦ rw (leave_room_present now room_id user_id db there) (
          save_participant-others (mark_left now) room_id user_id r u db d there
            (λ q h. ground arith) other)
    ]
