-- ===== src/RoomService/Roster/Runs.antt =====
-- Requests served one after the other, against the contract.
use smartmeet_backend.Prelude.{
  ℕ, ◌≡◌, ◌≤◌, none, refl, sym, ap, ◌∙◌, List, [], ◌∷◌, ◌==◌, arith, ok, err, Result, count,
  count-append,
}
use smartmeet_backend.Models.{
  Database, find_room, RoomParticipant, save_participant, add_participant,
}
use smartmeet_backend.RoomService.{
  Bcrypt, Inputs, CreateRoomInput, hash_password, store_room, create_room, join_room, leave_room,
  host_kick_participant, host_set_participant_muted, update_participant_presence,
}
use smartmeet_backend.RoomService.Creation.{host_row, create_room-IsConsistent}
use smartmeet_backend.RoomService.Counting.{count-update_rows}
use smartmeet_backend.RoomService.Invariant.{IsConsistent, joined_row}
use smartmeet_backend.RoomService.Departure.{HasDistinctIds}
use smartmeet_backend.RoomService.Consistency.{
  join_room-IsConsistent, leave_room-IsConsistent, host_kick_participant-IsConsistent,
  host_set_participant_muted-IsConsistent, update_participant_presence-IsConsistent,
}
use smartmeet_backend.RoomService.Writes.{
  Change, left, muted, present, change_row, leave_room-keeps, update_participant_presence-keeps,
  host_set_participant_muted-keeps, host_kick_participant-keeps, join_room-keeps,
}
use smartmeet_backend.RoomService.Roster.{
  Roster, Request, Reply, Answer, opened, create, join, leave, kick, mute, presence, rule,
}
use smartmeet_backend.RoomService.Roster.View.{view}
use smartmeet_backend.RoomService.Roster.Seen.{seen, reply_seat}
use smartmeet_backend.RoomService.Roster.Joining.{seen-join}
use smartmeet_backend.RoomService.Roster.Changing.{seen-leave, seen-kick, seen-mute, seen-presence}
use smartmeet_backend.RoomService.Roster.Opening.{seen-create}

-- The reply to a request, and the tables after it.
unfoldable pub serve : Bcrypt → Request → Database → Answer × Database
serve bcrypt (create i input) db =
    let done = create_room bcrypt i input db in (seen opened done, done.1)
serve bcrypt (join i room_id user_id password) db =
    let done = join_room bcrypt i room_id user_id password db in (seen reply_seat done, done.1)
serve bcrypt (leave now room_id user_id) db =
    let done = leave_room now room_id user_id db in (seen reply_seat done, done.1)
serve bcrypt (kick now room_id acting target) db =
    let done = host_kick_participant now room_id acting target db in (seen reply_seat done, done.1)
serve bcrypt (mute room_id acting target b) db =
    let done = host_set_participant_muted room_id acting target b db in
    (seen reply_seat done, done.1)
serve bcrypt (presence room_id user_id m k) db =
    let done = update_participant_presence room_id user_id m k db in (seen reply_seat done, done.1)

-- The replies to the requests, and the roster at the end.
abbrev pub Replies : Type 0
Replies = List Reply × Roster

module _ (bcrypt : Bcrypt) where
  unfoldable pub serve_all : List Request → Database → Replies
  serve_all [] db = ([], view db)
  serve_all (q ∷ qs) db =
      let rest = serve_all qs (serve bcrypt q db).1 in ((serve bcrypt q db).0.0 ∷ rest.0, rest.1)

  unfoldable pub rule_all : List Request → Roster → Replies
  rule_all [] ro = ([], ro)
  rule_all (q ∷ qs) ro =
      let rest = rule_all qs (rule bcrypt q ro).1 in ((rule bcrypt q ro).0 ∷ rest.0, rest.1)

-- A new participation comes with an id that none has, and a new room with one that no room has,
-- and with a place for its host.
abbrev pub IsNewRow : Inputs → Database → Type 0
IsNewRow i db = count (λ p. p.id == i.participant_id) db.participants ≡ 0

abbrev pub IsFresh : Request → Database → Type 0
IsFresh (create i input) db =
    (find_room i.room_id db ≡ none) × (1 ≤ input.max_participants) × IsNewRow i db
IsFresh (join i room_id user_id password) db = IsNewRow i db
IsFresh _ db = Unit {0}

unfoldable pub AreFresh : Bcrypt → List Request → Database → Type 0
AreFresh bcrypt [] db = Unit {0}
AreFresh bcrypt (q ∷ qs) db = IsFresh q db × AreFresh bcrypt qs (serve bcrypt q db).1

abbrev Distinct : Database → Type 0
Distinct db = HasDistinctIds db.participants

module _ (db : Database) (d : Distinct db) where
  add_participant-Distinct :
      (p : RoomParticipant)
      → count (λ q. q.id == p.id) db.participants ≡ 0
      → Distinct (add_participant p db)
  add_participant-Distinct p new id =
      rw (count-append (λ q. q.id == id) db.participants (p ∷ [])) (ground (arith, d id))

  save_participant-Distinct :
      (id : ℕ) (change : Change) → Distinct (save_participant id (change_row change) db)
  save_participant-Distinct id change r =
      rw
        (count-update_rows (λ q. q.id == r) id (change_row change) (same_id change) db.participants)
        (d r)
    where
      same_id :
          (change : Change) (p : RoomParticipant) → ((change_row change p).id == r) ≡ (p.id == r)
      same_id (left now) p = refl
      same_id (muted b) p = refl
      same_id (present m k) p = refl

  create_room-Distinct :
      (bcrypt : Bcrypt) (i : Inputs) (input : CreateRoomInput)
      → IsNewRow i db
      → Distinct (create_room bcrypt i input db).1
  unfolding create_room hash_password store_room
  create_room-Distinct bcrypt i input new =
      let added = add_participant-Distinct (host_row bcrypt i input) new in ground (arith, added)

module _ (bcrypt : Bcrypt) where
  serve-Distinct :
      (q : Request) (db : Database) → Distinct db → IsFresh q db → Distinct (serve bcrypt q db).1
  unfolding serve
  serve-Distinct (create i input) db d (fresh, place, new) =
      create_room-Distinct db d bcrypt i input new
  serve-Distinct (join i r u password) db d new =
      join_room-keeps Distinct db d i r u
        (λ room. add_participant-Distinct db d (joined_row i r u room) new) bcrypt password
  serve-Distinct (leave now r u) db d new =
      leave_room-keeps Distinct db d (save_participant-Distinct db d) r u now
  serve-Distinct (kick now r u target) db d new =
      host_kick_participant-keeps Distinct db d (save_participant-Distinct db d) r u now target
  serve-Distinct (mute r u target b) db d new =
      host_set_participant_muted-keeps Distinct db d (save_participant-Distinct db d) r u target b
  serve-Distinct (presence r u m k) db d new =
      update_participant_presence-keeps Distinct db d (save_participant-Distinct db d) r u m k

  serve-IsConsistent :
      (q : Request) (db : Database)
      → IsConsistent db
      → IsFresh q db
      → IsConsistent (serve bcrypt q db).1
  unfolding serve
  serve-IsConsistent (create i input) db c (fresh, place, new) =
      create_room-IsConsistent bcrypt i input db fresh place c
  serve-IsConsistent (join i r u password) db c new =
      join_room-IsConsistent bcrypt i r u password db c
  serve-IsConsistent (leave now r u) db c new = leave_room-IsConsistent r u db c now
  serve-IsConsistent (kick now r u target) db c new =
      host_kick_participant-IsConsistent r u db c now target
  serve-IsConsistent (mute r u target b) db c new =
      host_set_participant_muted-IsConsistent r u db c target b
  serve-IsConsistent (presence r u m k) db c new =
      update_participant_presence-IsConsistent r u db c m k

  -- In consistent tables whose participations have distinct ids, and with new ids for what is
  -- new: a request gets the reply that the contract gives, and leaves the contract's roster.
  pub serve-rule :
      (q : Request) (db : Database)
      → IsConsistent db
      → Distinct db
      → IsFresh q db
      → (serve bcrypt q db).0 ≡ rule bcrypt q (view db)
  unfolding serve
  serve-rule (create i input) db c d (fresh, place, new) = seen-create bcrypt i input db fresh c
  serve-rule (join i r u password) db c d new = seen-join bcrypt i r u password db
  serve-rule (leave now r u) db c d new = seen-leave r u db d bcrypt now c
  serve-rule (kick now r u target) db c d new = seen-kick r u target db d bcrypt now c
  serve-rule (mute r u target b) db c d new = seen-mute r u target db d bcrypt b
  serve-rule (presence r u m k) db c d new = seen-presence r u db d bcrypt m k

  seen-view :
      {A : Type 0} (reply : A → Reply) (x : Result A × Database) → (seen reply x).1 ≡ view x.1
  seen-view reply (ok a, db) = refl
  seen-view reply (err e, db) = refl

  serve-view : (q : Request) (db : Database) → (serve bcrypt q db).0.1 ≡ view (serve bcrypt q db).1
  unfolding serve
  serve-view (create i input) db = seen-view opened (create_room bcrypt i input db)
  serve-view (join i r u password) db = seen-view reply_seat (join_room bcrypt i r u password db)
  serve-view (leave now r u) db = seen-view reply_seat (leave_room now r u db)
  serve-view (kick now r u target) db =
      seen-view reply_seat (host_kick_participant now r u target db)
  serve-view (mute r u target b) db =
      seen-view reply_seat (host_set_participant_muted r u target b db)
  serve-view (presence r u m k) db = seen-view reply_seat (update_participant_presence r u m k db)

  -- In consistent tables whose participations have distinct ids, where each new participation and
  -- each new room has a new id, and a new room a place: any creations, joins, leaves, kicks, mutes
  -- and presence updates, in any order, get the replies that the contract's rule gives on the
  -- roster of the tables, refusals included, and they leave the roster that the rule leaves.
  pub serve_all-rule_all :
      (qs : List Request) (db : Database)
      → IsConsistent db
      → HasDistinctIds db.participants
      → AreFresh bcrypt qs db
      → serve_all bcrypt qs db ≡ rule_all bcrypt qs (view db)
  unfolding serve_all rule_all AreFresh
  serve_all-rule_all [] db c d new = refl
  serve_all-rule_all (q ∷ qs) db c d (fresh, rest) =
      let one = serve-rule q db c d fresh in
      let after : view (serve bcrypt q db).1 ≡ (rule bcrypt q (view db)).1 =
        sym (serve-view q db) ∙ ap (λ a. a.1) one in
      rw
        (
          serve_all-rule_all qs (serve bcrypt q db).1 (serve-IsConsistent q db c fresh)
              (serve-Distinct q db d fresh) rest,
          after,
          one,
        )
        refl
