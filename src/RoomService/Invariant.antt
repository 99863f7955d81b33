-- ===== src/RoomService/Invariant.antt =====
-- The invariant of the room tables, and that every write of the service keeps it.
use smartmeet_backend.Prelude.{
  ℕ, suc, ◌+◌, ◌≤◌, ◌≡◌, refl, Bool, true, false, Option, none, some, [], ◌∷◌, arith, ◌==◌,
  Bool-cases, inl, inr, count, count-append, any, if◌then◌else◌, ok, err, leb, leb→le, leb_false→lt,
}
use smartmeet_backend.Errors.{conflict_error, unique_constraint_error}
use smartmeet_backend.Constants.{RoomRole, host, participant}
use smartmeet_backend.Models.{
  Database, Room, RoomParticipant, is_active_in, is_active_of, find_room, save_participant,
  new_participant, add_participant,
}
use smartmeet_backend.RoomService.{Inputs, join_commit, mark_left, set_muted, set_presence}
use smartmeet_backend.RoomService.Counting.{
  count_zero_of_any, count-update_rows-le, count-update_rows,
}

-- A room holds at most `maxParticipants` active rows; a room that is not there holds none.
abbrev pub Fits : Option Room → ℕ → Type 0
Fits none n = n ≡ 0
Fits (some room) n = n ≤ room.max_participants

pub record IsConsistent (db : Database) : Type 0 where
  pub capacity : (r : ℕ) → Fits (find_room r db) (count (is_active_in r) db.participants)
  pub unique : (r u : ℕ) → count (is_active_of r u) db.participants ≤ 1

pub Fits-le : (found : Option Room) (m n : ℕ) → m ≤ n → Fits found n → Fits found m
Fits-le none m n h f = omega arith
Fits-le (some room) m n h f = omega arith

-- A participation that is marked as left.
pub save-mark_left-IsConsistent :
    (id now : ℕ) (db : Database)
    → IsConsistent db
    → IsConsistent (save_participant id (mark_left now) db)
save-mark_left-IsConsistent id now db c = record {
  capacity = λ r.
      Fits-le (find_room r db) _ _
        (count-update_rows-le (is_active_in r) id (mark_left now) (λ p h. ground arith)
          db.participants)
        (c.capacity r);
  unique = λ r u. omega (
    arith,
    c.unique r u,
    count-update_rows-le (is_active_of r u) id (mark_left now) (λ p h. ground arith)
        db.participants,
  );
}

module _ (id : ℕ) (db : Database) (c : IsConsistent db) where
  pub save-set_muted-IsConsistent : (b : Bool) → IsConsistent (save_participant id (set_muted b) db)
  save-set_muted-IsConsistent b = record {
    capacity = λ r.
        rw (count-update_rows (is_active_in r) id (set_muted b) (λ p. refl) db.participants)
          (c.capacity r);
    unique = λ r u.
        rw (count-update_rows (is_active_of r u) id (set_muted b) (λ p. refl) db.participants)
          (c.unique r u);
  }

  pub save-set_presence-IsConsistent :
      (m k : Option Bool) → IsConsistent (save_participant id (set_presence m k) db)
  save-set_presence-IsConsistent m k = record {
    capacity = λ r.
        rw (count-update_rows (is_active_in r) id (set_presence m k) (λ p. refl) db.participants)
          (c.capacity r);
    unique = λ r u.
        rw (count-update_rows (is_active_of r u) id (set_presence m k) (λ p. refl) db.participants)
          (c.unique r u);
  }

module _ (p : RoomParticipant) (db : Database) (active : p.left_at ≡ none) where
  pub count-add_participant_in :
      (r : ℕ)
      → count (is_active_in r) (add_participant p db).participants
        ≤ count (is_active_in r) db.participants + (if p.room_id == r then 1 else 0)
  count-add_participant_in r =
      ground (arith, count-append (is_active_in r) db.participants (p ∷ []))

  pub count-add_participant_of :
      (r u : ℕ)
      → any (is_active_of p.room_id p.user_id) db.participants ≡ false
      → count (is_active_of r u) db.participants ≤ 1
      → count (is_active_of r u) (add_participant p db).participants ≤ 1
  count-add_participant_of r u fresh h = elim (Bool-cases (is_active_of r u p)) [
    | inl this ↦
        let same_room : p.room_id ≡ r = ground arith in
        let same_user : p.user_id ≡ u = ground arith in
        let zero_before : count (is_active_of r u) db.participants ≡ 0 =
          count_zero_of_any (is_active_of r u) db.participants
            (rw (← same_room, ← same_user) fresh) in
        rw (count-append (is_active_of r u) db.participants (p ∷ []), zero_before, this)
          (omega arith)
    | inr other ↦ rw (count-append (is_active_of r u) db.participants (p ∷ []), other) (omega arith)
  ]

-- The role that `joinRoom` gives.
abbrev pub join_role : Room → ℕ → RoomRole
join_role room user_id = if room.host_id == user_id then host else participant

abbrev pub joined_row : Inputs → ℕ → ℕ → Room → RoomParticipant
joined_row i room_id user_id room =
    new_participant i.participant_id i.now room_id user_id (join_role room user_id)

module _ (i : Inputs) (room_id user_id : ℕ) (room : Room) (db : Database) where
  -- Full, already in, or admitted: the transaction writes only in the last case.
  pub join_commit_full :
      room.max_participants ≤ count (is_active_in room_id) db.participants
      → join_commit i room_id user_id room db
        ≡ (err (conflict_error "Room has reached its maximum number of participants"), db)
  unfolding join_commit
  join_commit_full h = ground arith

  pub join_commit_twice :
      suc (count (is_active_in room_id) db.participants) ≤ room.max_participants
      → any (is_active_of room_id user_id) db.participants ≡ true
      → join_commit i room_id user_id room db ≡ (err unique_constraint_error, db)
  unfolding join_commit
  join_commit_twice h k = ground arith

  pub join_commit_admits :
      suc (count (is_active_in room_id) db.participants) ≤ room.max_participants
      → any (is_active_of room_id user_id) db.participants ≡ false
      → join_commit i room_id user_id room db ≡ (
        ok (joined_row i room_id user_id room),
        add_participant (joined_row i room_id user_id room) db,
      )
  unfolding join_commit
  join_commit_admits h k = ground arith

  -- A new active row, under the two conditions that the transaction checks.
  add_joined_row-IsConsistent :
      find_room room_id db ≡ some room
      → suc (count (is_active_in room_id) db.participants) ≤ room.max_participants
      → any (is_active_of room_id user_id) db.participants ≡ false
      → IsConsistent db
      → IsConsistent (add_participant (joined_row i room_id user_id room) db)
  add_joined_row-IsConsistent found space fresh c = record {
    capacity = λ r. elim (Bool-cases (room_id == r)) [
      | inl this ↦
          let e : room_id ≡ r = ground arith in
          rw (← e, found)
            (ground
              (arith, count-add_participant_in (joined_row i room_id user_id room) db refl room_id))
      | inr other ↦
          Fits-le (find_room r db) _ _
            (ground (
              arith,
              other,
              count-add_participant_in (joined_row i room_id user_id room) db refl r,
            ))
            (c.capacity r)
    ];
    unique = λ r u.
        count-add_participant_of (joined_row i room_id user_id room) db refl r u fresh
          (c.unique r u);
  }

  pub join_commit-IsConsistent :
      find_room room_id db ≡ some room
      → IsConsistent db
      → IsConsistent (join_commit i room_id user_id room db).1
  join_commit-IsConsistent found c =
      elim (Bool-cases (leb room.max_participants (count (is_active_in room_id) db.participants))) [
        | inl full ↦ rw (join_commit_full (leb→le _ _ full)) c
        | inr space ↦ elim (Bool-cases (any (is_active_of room_id user_id) db.participants)) [
          | inl old ↦ rw (join_commit_twice (leb_false→lt _ _ space) old) c
          | inr new ↦
              rw (join_commit_admits (leb_false→lt _ _ space) new)
                (add_joined_row-IsConsistent found (leb_false→lt _ _ space) new c)
        ]
      ]
