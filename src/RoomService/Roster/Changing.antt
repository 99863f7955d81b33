-- ===== src/RoomService/Roster/Changing.antt =====
-- The operations that change one participation, against the contract's rule.
use smartmeet_backend.Prelude.{
  ℕ, ◌≡◌, refl, inl, inr, Bool, Option, none, some, ok, Bool-cases, Option-cases, ◌==◌,
}
use smartmeet_backend.Constants.{can_moderate}
use smartmeet_backend.Models.{
  Database, RoomParticipant, find_room, is_active_in, is_active_of, save_participant,
}
use smartmeet_backend.RoomService.{
  Bcrypt, leave_room, host_kick_participant, host_set_participant_muted,
  update_participant_presence, get_active_participant, get_room_by_id, assert_can_moderate,
  mark_left, set_muted, set_presence,
}
use smartmeet_backend.RoomService.Invariant.{IsConsistent}
use smartmeet_backend.RoomService.Departure.{HasDistinctIds}
use smartmeet_backend.RoomService.Roster.{
  Seat, leave, kick, mute, presence, give_up, change_seat, choose, rule,
}
use smartmeet_backend.RoomService.Roster.View.{seat_of, view, view-mark_left, view-change}
use smartmeet_backend.RoomService.Roster.Seen.{seen, reply_seat}

-- The fields that the client left out stay.
seat_of-set_presence :
    (m k : Option Bool) (p : RoomParticipant)
    → seat_of (set_presence m k p) ≡ choose m k (seat_of p)
seat_of-set_presence none none p = refl
seat_of-set_presence none (some _) p = refl
seat_of-set_presence (some _) none p = refl
seat_of-set_presence (some _) (some _) p = refl

module _ (room_id user_id : ℕ) (db : Database) (d : HasDistinctIds db.participants) where
  seen-give_up :
      (now : ℕ) {p : RoomParticipant}
      → IsConsistent db
      → get_active_participant room_id user_id db ≡ some p
      → seen reply_seat (ok (mark_left now p), save_participant p.id (mark_left now) db)
        ≡ give_up ((view db).seat room_id user_id) room_id user_id (view db)
  seen-give_up now {p} c there = rw (there, view-mark_left room_id user_id db now c d there) refl

  seen-change :
      (change : RoomParticipant → RoomParticipant) (f : Seat → Seat) {p : RoomParticipant}
      → ((r u : ℕ) (q : RoomParticipant) → is_active_of r u (change q) ≡ is_active_of r u q)
      → ((r : ℕ) (q : RoomParticipant) → is_active_in r (change q) ≡ is_active_in r q)
      → seat_of (change p) ≡ f (seat_of p)
      → get_active_participant room_id user_id db ≡ some p
      → seen reply_seat (ok (change p), save_participant p.id change db)
        ≡ change_seat f ((view db).seat room_id user_id) room_id user_id (view db)
  seen-change change f {p} keep_of keep_in same there =
      rw (there, view-change room_id user_id db change keep_of keep_in d there, same) refl

  pub seen-leave :
      (bcrypt : Bcrypt) (now : ℕ)
      → IsConsistent db
      → seen reply_seat (leave_room now room_id user_id db)
        ≡ rule bcrypt (leave now room_id user_id) (view db)
  unfolding leave_room rule
  seen-leave bcrypt now c = elim (Option-cases (get_active_participant room_id user_id db)) [
    | inl out ↦ rw out refl
    | inr (p, there) ↦ rw there (rw there at (seen-give_up now c there))
  ]

  pub seen-presence :
      (bcrypt : Bcrypt) (m k : Option Bool)
      → seen reply_seat (update_participant_presence room_id user_id m k db)
        ≡ rule bcrypt (presence room_id user_id m k) (view db)
  unfolding update_participant_presence rule
  seen-presence bcrypt m k = elim (Option-cases (get_active_participant room_id user_id db)) [
    | inl out ↦ rw out refl
    | inr (p, there) ↦ rw there (
        rw there at (
          seen-change (set_presence m k) (choose m k) (λ r u q. refl) (λ r q. refl)
            (seat_of-set_presence m k p) there))
  ]

module _ (room_id acting target : ℕ) (db : Database) (d : HasDistinctIds db.participants) where
  pub seen-mute :
      (bcrypt : Bcrypt) (b : Bool)
      → seen reply_seat (host_set_participant_muted room_id acting target b db)
        ≡ rule bcrypt (mute room_id acting target b) (view db)
  unfolding host_set_participant_muted assert_can_moderate rule
  seen-mute bcrypt b = elim (Option-cases (get_active_participant room_id acting db)) [
    | inl nobody ↦ rw nobody refl
    | inr (a, acts) ↦ elim (Bool-cases (can_moderate a.role)) [
      | inr may_not ↦ rw (acts, may_not) refl
      | inl may ↦ elim (Option-cases (get_active_participant room_id target db)) [
        | inl out ↦ rw (acts, may, out) refl
        | inr (p, there) ↦
            rw (acts, may, there)
              (rw there at (
                seen-change room_id target db d (set_muted b) (λ s. record s { is_muted = b })
                  (λ r u q. refl) (λ r q. refl) refl there))
      ]
    ]
  ]

  pub seen-kick :
      (bcrypt : Bcrypt) (now : ℕ)
      → IsConsistent db
      → seen reply_seat (host_kick_participant now room_id acting target db)
        ≡ rule bcrypt (kick now room_id acting target) (view db)
  unfolding host_kick_participant get_room_by_id rule
  seen-kick bcrypt now c = elim (Option-cases (find_room room_id db)) [
    | inl missing ↦ rw missing refl
    | inr (room, found) ↦ elim (Bool-cases (room.host_id == acting)) [
      | inr guest ↦ rw (found, guest) refl
      | inl hosts ↦ elim (Bool-cases (target == acting)) [
        | inl self ↦ rw (found, hosts, self) refl
        | inr other ↦ elim (Option-cases (get_active_participant room_id target db)) [
          | inl out ↦ rw (found, hosts, other, out) refl
          | inr (p, there) ↦
              rw (found, hosts, other, there)
                (rw there at (seen-give_up room_id target db d now c there))
        ]
      ]
    ]
  ]
