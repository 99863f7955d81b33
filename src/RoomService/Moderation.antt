-- ===== src/RoomService/Moderation.antt =====
-- What the host controls do: `hostSetParticipantMuted` and `hostKickParticipant`.
use smartmeet_backend.Prelude.{
  ℕ, ◌≡◌, refl, ◌≢◌, ◌↔◌, inl, inr, Bool, true, none, some, List, [], ◌∷◌, arith, ok, find_first,
  Option-cases,
}
use smartmeet_backend.Constants.{can_moderate}
use smartmeet_backend.Models.{
  Database, Room, RoomParticipant, is_active_of, save_participant, update_rows, find_room,
}
use smartmeet_backend.RoomService.{
  host_set_participant_muted, host_kick_participant, get_active_participant, mark_left, set_muted,
}
use smartmeet_backend.RoomService.Invariant.{IsConsistent}
use smartmeet_backend.RoomService.Departure.{
  HasDistinctIds, mark_left_removes, save_participant-others,
}

-- A change that keeps what a query asks for is seen in the row that the query finds.
pub find_first-update_rows :
    (q : RoomParticipant → Bool) (change : RoomParticipant → RoomParticipant)
    (ps : List RoomParticipant) {p : RoomParticipant}
    → ((r : RoomParticipant) → q (change r) ≡ q r)
    → find_first q ps ≡ some p
    → find_first q (update_rows p.id change ps) ≡ some (change p)
find_first-update_rows q change [] keep h = ground arith
find_first-update_rows q change (r ∷ ps) {p} keep h =
    ground (arith, keep r, find_first-update_rows q change ps {p = p} keep)

module _ (room_id acting_user_id target_user_id : ℕ) (db : Database) where
  -- What a forced mute needs and does.
  pub record Muted (b : Bool) (after : Database) (target : RoomParticipant) : Type 0 where
    pub acting : RoomParticipant
    pub acting_active : get_active_participant room_id acting_user_id db ≡ some acting
    pub may_moderate : can_moderate acting.role ≡ true
    pub now_muted : get_active_participant room_id target_user_id after ≡ some target
    pub flag : target.is_muted ≡ b
    pub others :
        (r u : ℕ)
        → (r ≡ room_id → u ≢ target_user_id)
        → get_active_participant r u after ≡ get_active_participant r u db

  mute_run :
      (b : Bool) {acting target : RoomParticipant}
      → get_active_participant room_id acting_user_id db ≡ some acting
      → can_moderate acting.role ≡ true
      → get_active_participant room_id target_user_id db ≡ some target
      → host_set_participant_muted room_id acting_user_id target_user_id b db
        ≡ (ok (set_muted b target), save_participant target.id (set_muted b) db)
  unfolding host_set_participant_muted
  mute_run b a m t = ground arith

  mute_sound :
      (b : Bool) (t : RoomParticipant)
      → (host_set_participant_muted room_id acting_user_id target_user_id b db).0 ≡ ok t
      → (acting : RoomParticipant) × (target : RoomParticipant) × (get_active_participant room_id
            acting_user_id db
          ≡ some acting)
        × (can_moderate acting.role ≡ true)
        × (get_active_participant room_id target_user_id db ≡ some target)
        × (t ≡ set_muted b target)
  unfolding host_set_participant_muted
  mute_sound b t h = elim (Option-cases (get_active_participant room_id acting_user_id db)) [
    | inl out ↦ ground arith
    | inr (acting, a) ↦ elim (Option-cases (get_active_participant room_id target_user_id db)) [
      | inl gone ↦ ground arith
      | inr (target, there) ↦ (acting, target, a, ground arith, there, ground arith)
    ]
  ]

  saved_mute_found :
      (b : Bool) {target : RoomParticipant}
      → get_active_participant room_id target_user_id db ≡ some target
      → get_active_participant room_id target_user_id (save_participant target.id (set_muted b) db)
        ≡ some (set_muted b target)
  unfolding get_active_participant
  saved_mute_found b there =
      find_first-update_rows (is_active_of room_id target_user_id) (set_muted b) db.participants
        (λ r. refl) there

  -- Where participations have distinct ids: a forced mute that succeeds was asked for by an
  -- active host or moderator of the room; it sets the flag of the target's active row, which it
  -- returns, and no other active participation changes.
  pub host_set_participant_muted_lem :
      (b : Bool) (t : RoomParticipant)
      → HasDistinctIds db.participants
      → (host_set_participant_muted room_id acting_user_id target_user_id b db).0 ≡ ok t
      → Muted b (host_set_participant_muted room_id acting_user_id target_user_id b db).1 t
  host_set_participant_muted_lem b t d h =
      let (acting, target, a, m, there, e) = mute_sound b t h in
      rw (mute_run b a m there, e)
        (record {
          acting = acting;
          acting_active = a;
          may_moderate = m;
          now_muted = saved_mute_found b there;
          flag = refl;
          others = λ r u other.
              save_participant-others (set_muted b) room_id target_user_id r u db d there (λ q k. k)
                other;
        })

  -- The conditions of a kick, read off the tables.
  pub record MayKick : Type 0 where
    pub room : Room
    pub found : find_room room_id db ≡ some room
    pub is_host : room.host_id ≡ acting_user_id
    pub not_self : target_user_id ≢ acting_user_id
    pub target : RoomParticipant
    pub present : get_active_participant room_id target_user_id db ≡ some target

  kick_run :
      (now : ℕ) (m : MayKick)
      → host_kick_participant now room_id acting_user_id target_user_id db
        ≡ (ok (mark_left now m.target), save_participant m.target.id (mark_left now) db)
  unfolding host_kick_participant
  kick_run now m = ground (arith, m.found, m.is_host, m.not_self, m.present)

  kick_sound :
      (now : ℕ) (t : RoomParticipant)
      → (host_kick_participant now room_id acting_user_id target_user_id db).0 ≡ ok t
      → MayKick
  unfolding host_kick_participant
  kick_sound now t h = elim (Option-cases (find_room room_id db)) [
    | inl missing ↦ ground arith
    | inr (room, found) ↦ elim (Option-cases (get_active_participant room_id target_user_id db)) [
      | inl gone ↦ ground arith
      | inr (target, there) ↦ record {
        room = room;
        found = found;
        is_host = ground arith;
        not_self = ground arith;
        target = target;
        present = there;
      }
    ]
  ]

  -- A kick succeeds exactly when the room is there, the acting user is its host, and the target
  -- is somebody else and an active participant.
  pub host_kick_participant_iff :
      (now : ℕ)
      → ((t : RoomParticipant) × ((host_kick_participant now room_id acting_user_id target_user_id
              db).0
            ≡ ok t))
        ↔ MayKick
  host_kick_participant_iff now =
      (λ h. kick_sound now h.0 h.1, λ m. (mark_left now m.target, rw (kick_run now m) refl))

  -- In consistent tables whose participations have distinct ids: after a kick that succeeds the
  -- target has no active participation in the room, and every other active participation is as
  -- before.
  pub host_kick_participant_removes :
      (now : ℕ) (t : RoomParticipant)
      → IsConsistent db
      → HasDistinctIds db.participants
      → (host_kick_participant now room_id acting_user_id target_user_id db).0 ≡ ok t
      → let after = (host_kick_participant now room_id acting_user_id target_user_id db).1 in
        (get_active_participant room_id target_user_id after ≡ none)
        × ((r u : ℕ)
            → (r ≡ room_id → u ≢ target_user_id)
            → get_active_participant r u after ≡ get_active_participant r u db)
  host_kick_participant_removes now t c d h =
      let m = kick_sound now t h in
      rw (kick_run now m) (
        mark_left_removes now room_id target_user_id db c m.present,
        λ r u other.
            save_participant-others (mark_left now) room_id target_user_id r u db d m.present
              (λ q k. ground arith) other,
      )
