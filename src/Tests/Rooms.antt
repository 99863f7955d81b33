-- ===== src/Tests/Rooms.antt =====
-- The theorems on rooms, on the test data.
use smartmeet_backend.Prelude.{
  ℕ, ◌≡◌, refl, ◌≤◌, ◌↔◌, ◌≢◌, true, none, some, List, [], ◌∷◌, arith, count, ok, err,
}
use smartmeet_backend.Errors.{auth_error}
use smartmeet_backend.Constants.{participant, password_access}
use smartmeet_backend.Models.{Database, RoomParticipant, is_active_in, is_active_of}
use smartmeet_backend.RoomService.{
  CreateRoomInput, hash_password, store_room, check_password, non_empty, create_room, join_check,
  join_commit, join_rest, join_room, mark_left, get_room_by_id, get_active_participant,
  host_kick_participant, host_set_participant_muted, set_muted,
}
use smartmeet_backend.RoomService.Invariant.{joined_row}
use smartmeet_backend.RoomService.Schedule.{
  Pending, World, Step, Reach, here, next, room_never_overfull, participation_unique,
}
use smartmeet_backend.RoomService.Join.{MayJoin, join_room_iff}
use smartmeet_backend.RoomService.RoundTrip.{create_room-join}
use smartmeet_backend.RoomService.Moderation.{host_kick_participant_removes}
use smartmeet_backend.RoomService.Roster.{Request}
use smartmeet_backend.RoomService.Roster.View.{view}
use smartmeet_backend.RoomService.Roster.Runs.{
  serve, serve_all, rule_all, AreFresh, serve_all-rule_all,
}
use smartmeet_backend.Tests.Data.{
  plain_bcrypt, inputs, lobby, row, tables, tables-IsConsistent, tables-HasDistinctIds,
}

-- Two users have read the room, and then both come to their transactions: the second finds it full.
abbrev waiting : ℕ → Pending
waiting user_id = record { room_id = 1; user_id = user_id; room = lobby }

abbrev world : List Pending → Database → World
world pending db = record { db = db; pending = pending }

abbrev filled : Database
filled = (join_commit inputs 1 9 lobby tables).1

check_in : (join_check plain_bcrypt 1 9 (some "secret") tables).0 ≡ ok (lobby, none)
unfolding join_check get_room_by_id check_password non_empty get_active_participant
check_in = refl

check_in_too : (join_check plain_bcrypt 1 6 (some "secret") tables).0 ≡ ok (lobby, none)
unfolding join_check get_room_by_id check_password non_empty get_active_participant
check_in_too = refl

rush : Reach plain_bcrypt (world [] tables) (world [] (join_commit inputs 1 6 lobby filled).1)
rush =
    next
      (next
        (next (next here (Step.check (waiting 9) (some "secret") check_in refl))
          (Step.check (waiting 6) (some "secret") check_in_too refl))
        (Step.commit inputs (waiting 6 ∷ []) (waiting 9) [] refl refl))
      (Step.commit inputs [] (waiting 6) [] refl refl)

room_never_overfull_example :
    count (is_active_in 1) (join_commit inputs 1 6 lobby filled).1.participants ≤ 3
room_never_overfull_example =
    room_never_overfull {bcrypt = plain_bcrypt} 1 {room = lobby} tables-IsConsistent refl rush
      (unfold join_commit in refl)

participation_unique_example :
    count (is_active_of 1 9) (join_commit inputs 1 6 lobby filled).1.participants ≤ 1
participation_unique_example =
    participation_unique {bcrypt = plain_bcrypt} 1 9 tables-IsConsistent refl rush

join_room_iff_example :
    ((p : RoomParticipant) × ((join_room plain_bcrypt inputs 1 9 (some "secret") tables).0 ≡ ok p))
    ↔ MayJoin plain_bcrypt 1 9 (some "secret") tables
join_room_iff_example = join_room_iff plain_bcrypt inputs 1 9 (some "secret") tables

joins_nine :
    (join_room plain_bcrypt inputs 1 9 (some "secret") tables).0 ≡ ok (joined_row inputs 1 9 lobby)
unfolding join_room join_rest join_check get_room_by_id check_password non_empty
    get_active_participant join_commit
joins_nine = refl

wrong_password :
    (join_room plain_bcrypt inputs 1 9 (some "guess") tables).0
    ≡ err (auth_error "Incorrect room password")
unfolding join_room join_check get_room_by_id check_password non_empty
wrong_password = refl

abbrev locked_input : CreateRoomInput
locked_input = record {
  name = "Locked";
  access_type = password_access;
  password = some "pw";
  max_participants = 2;
  host_id = 7;
}

create_room-join_example :
    (joined : RoomParticipant) × ((join_room plain_bcrypt inputs 2 9
        (some "pw")
        (create_room plain_bcrypt inputs locked_input tables).1).0
      ≡ ok joined)
create_room-join_example =
    create_room-join plain_bcrypt inputs locked_input tables inputs 9 "pw" tables-IsConsistent refl
      (omega arith) refl (unfold non_empty in refl) refl

mutes_guest :
    (host_set_participant_muted 1 7 8 true tables).0 ≡ ok (set_muted true (row 11 8 participant))
unfolding host_set_participant_muted get_active_participant
mutes_guest = refl

pub kicks_guest :
    (host_kick_participant 100 1 7 8 tables).0 ≡ ok (mark_left 100 (row 11 8 participant))
unfolding host_kick_participant get_room_by_id get_active_participant
kicks_guest = refl

host_kick_participant_removes_example :
    let after = (host_kick_participant 100 1 7 8 tables).1 in
    (get_active_participant 1 8 after ≡ none)
    × ((r u : ℕ)
        → (r ≡ 1 → u ≢ 8)
        → get_active_participant r u after ≡ get_active_participant r u tables)
host_kick_participant_removes_example =
    host_kick_participant_removes 1 7 8 tables 100 (mark_left 100 (row 11 8 participant))
      tables-IsConsistent tables-HasDistinctIds kicks_guest

-- A room is opened, a user joins another, whose host kicks the guest and mutes the user, a wrong
-- password and a request of nobody are refused, and the user leaves.
abbrev visits : List Request
visits =
    Request.create inputs locked_input
    ∷ Request.join (record inputs { participant_id = 13 }) 1 9 (some "secret")
    ∷ Request.kick 100 1 7 8
    ∷ Request.mute 1 7 9 true
    ∷ Request.join (record inputs { participant_id = 14 }) 1 6 (some "guess")
    ∷ Request.presence 1 8 none none
    ∷ Request.leave 101 1 9
    ∷ []

visits-AreFresh : AreFresh plain_bcrypt visits tables
unfolding AreFresh serve create_room hash_password store_room join_room join_rest join_check
    get_room_by_id check_password non_empty get_active_participant join_commit host_kick_participant
    host_set_participant_muted
visits-AreFresh = ((refl, omega arith, refl), (refl, (tt, (tt, (refl, (tt, (tt, tt)))))))

serve_all-rule_all_example :
    serve_all plain_bcrypt visits tables ≡ rule_all plain_bcrypt visits (view tables)
serve_all-rule_all_example =
    serve_all-rule_all plain_bcrypt visits tables tables-IsConsistent tables-HasDistinctIds
      visits-AreFresh
