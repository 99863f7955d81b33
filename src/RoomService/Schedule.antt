-- ===== src/RoomService/Schedule.antt =====
-- Concurrent requests on the room tables. A join is two steps, its checks and its transaction,
-- between which other requests run; what a join has read is kept with it. The updates of rows by
-- id are steps of their own, for any id, so they stand for every leave, kick, mute and presence
-- request, however long ago it read the row.
use smartmeet_backend.Prelude.{
  ℕ, String, ◌≤◌, ◌≡◌, Bool, Option, none, some, List, [], ◌∷◌, ◌++◌, arith, ok, count, All, ◌∙◌,
  proceed-keeps, ◌==◌,
}
use smartmeet_backend.Models.{
  Database, Room, find_room, save_participant, is_active_in, is_active_of, add_room,
}
use smartmeet_backend.RoomService.Counting.{find_first_append_some}
use smartmeet_backend.RoomService.{
  Bcrypt, Inputs, CreateRoomInput, hash_password, new_room, store_room, create_room, join_check,
  join_commit, mark_left, set_muted, set_presence,
}
use smartmeet_backend.RoomService.Creation.{create_room-IsConsistent, hash_password_same}
use smartmeet_backend.RoomService.Invariant.{
  IsConsistent, join_commit-IsConsistent, save-mark_left-IsConsistent, save-set_muted-IsConsistent,
  save-set_presence-IsConsistent,
}

-- A join between its checks and its transaction.
pub record Pending : Type 0 where
  pub room_id : ℕ
  pub user_id : ℕ
  pub room : Room

pub record World : Type 0 where
  pub db : Database
  pub pending : List Pending

pub data Step (bcrypt : Bcrypt) (w : World) (w' : World) : Type 0 where
  create :
      (i : Inputs) (input : CreateRoomInput)
      → find_room i.room_id w.db ≡ none
      → 1 ≤ input.max_participants
      → w' ≡ record w { db = (create_room bcrypt i input w.db).1 }
      → Step bcrypt w w'
  check :
      (p : Pending) (password : Option String)
      → (join_check bcrypt p.room_id p.user_id password w.db).0 ≡ ok (p.room, none)
      → w' ≡ record w { pending = p ∷ w.pending }
      → Step bcrypt w w'
  commit :
      (i : Inputs) (before : List Pending) (p : Pending) (after : List Pending)
      → w.pending ≡ before ++ p ∷ after
      → w' ≡ record {
        db = (join_commit i p.room_id p.user_id p.room w.db).1;
        pending = before ++ after;
      }
      → Step bcrypt w w'
  left :
      (id now : ℕ)
      → w' ≡ record w { db = save_participant id (mark_left now) w.db }
      → Step bcrypt w w'
  muted :
      (id : ℕ) (b : Bool)
      → w' ≡ record w { db = save_participant id (set_muted b) w.db }
      → Step bcrypt w w'
  presence :
      (id : ℕ) (m k : Option Bool)
      → w' ≡ record w { db = save_participant id (set_presence m k) w.db }
      → Step bcrypt w w'

pub data Reach (bcrypt : Bcrypt) (w : World) : World → Type 0 where
  here : Reach bcrypt w w
  next : {u v : World} → Reach bcrypt w u → Step bcrypt u v → Reach bcrypt w v

-- A join that waits for its transaction has read a room that is there.
abbrev pub HasRead : Database → Pending → Type 0
HasRead db p = find_room p.room_id db ≡ some p.room

pub record Inv (w : World) : Type 0 where
  pub consistent : IsConsistent w.db
  pub read : All (HasRead w.db) w.pending

All-member {ℓ} :
    {A : Type 0} (P : A → Type ℓ) (xs : List A) (x : A) (ys : List A) → All P (xs ++ x ∷ ys) → P x
All-member P [] x ys h = h.0
All-member P (y ∷ xs) x ys h = All-member P xs x ys h.1

All-without {ℓ} :
    {A : Type 0} (P : A → Type ℓ) (xs : List A) (x : A) (ys : List A)
    → All P (xs ++ x ∷ ys)
    → All P (xs ++ ys)
All-without P [] x ys h = h.1
All-without P (y ∷ xs) x ys h = (h.0, All-without P xs x ys h.1)

All-imp {ℓ} :
    {A : Type 0} (P Q : A → Type ℓ) → ((x : A) → P x → Q x) → (xs : List A) → All P xs → All Q xs
All-imp P Q f [] h = tt
All-imp P Q f (x ∷ xs) h = (f x h.0, All-imp P Q f xs h.1)

-- Rooms only come in, so what a join has read stays true.
join_commit-find_room :
    (i : Inputs) (room_id user_id : ℕ) (room : Room) (db : Database) (r : ℕ)
    → find_room r (join_commit i room_id user_id room db).1 ≡ find_room r db
unfolding join_commit
join_commit-find_room i room_id user_id room db r = ground arith

module _ (bcrypt : Bcrypt) (i : Inputs) (input : CreateRoomInput) (r : ℕ) (room : Room) where
  store_room-find_room :
      (hashed : Option String) (db : Database)
      → find_room r db ≡ some room
      → find_room r (store_room bcrypt i input hashed db).1 ≡ some room
  unfolding store_room
  store_room-find_room hashed db found =
      let kept : find_room r (add_room (new_room bcrypt i input hashed) db) ≡ some room =
        find_first_append_some (λ q. q.id == r) db.rooms (new_room bcrypt i input hashed ∷ [])
          found in
      ground (arith, kept)

  create_room-find_room :
      (db : Database)
      → find_room r db ≡ some room
      → find_room r (create_room bcrypt i input db).1 ≡ some room
  unfolding create_room
  create_room-find_room db found =
      proceed-keeps (λ d. find_room r d ≡ some room) (hash_password bcrypt i input db)
        (store_room bcrypt i input) (rw (hash_password_same bcrypt i input db) found)
        (λ hashed e.
          store_room-find_room hashed _ (rw (hash_password_same bcrypt i input db) found))

join_check-HasRead :
    (bcrypt : Bcrypt) (p : Pending) (password : Option String) (db : Database)
    → (join_check bcrypt p.room_id p.user_id password db).0 ≡ ok (p.room, none)
    → HasRead db p
unfolding join_check
join_check-HasRead bcrypt p password db e = ground arith

Step-Inv : {bcrypt : Bcrypt} {w w' : World} → Step bcrypt w w' → Inv w → Inv w'
Step-Inv {bcrypt} {w} (create i input fresh space e) v = rw e (record {
  consistent = create_room-IsConsistent bcrypt i input w.db fresh space v.consistent;
  read =
      All-imp (HasRead w.db) (HasRead (create_room bcrypt i input w.db).1)
        (λ p h. create_room-find_room bcrypt i input p.room_id p.room w.db h) w.pending v.read;
})
Step-Inv {bcrypt} {w} (check p password found e) v = rw e (record {
  consistent = v.consistent;
  read = (join_check-HasRead bcrypt p password w.db found, v.read);
})
Step-Inv {bcrypt} {w} (commit i before p after waits e) v =
    let reads = rw waits at v.read in
    rw e (record {
      consistent =
          join_commit-IsConsistent i p.room_id p.user_id p.room w.db
            (All-member (HasRead w.db) before p after reads) v.consistent;
      read =
          All-imp (HasRead w.db) (HasRead (join_commit i p.room_id p.user_id p.room w.db).1)
            (λ q h. join_commit-find_room i p.room_id p.user_id p.room w.db q.room_id ∙ h)
            (before ++ after) (All-without (HasRead w.db) before p after reads);
    })
Step-Inv {bcrypt} {w} (left id now e) v =
    rw e
      (record { consistent = save-mark_left-IsConsistent id now w.db v.consistent; read = v.read })
Step-Inv {bcrypt} {w} (muted id b e) v =
    rw e (record { consistent = save-set_muted-IsConsistent id w.db v.consistent b; read = v.read })
Step-Inv {bcrypt} {w} (presence id m k e) v =
    rw e (record {
      consistent = save-set_presence-IsConsistent id w.db v.consistent m k;
      read = v.read;
    })

pub Reach-Inv : {bcrypt : Bcrypt} {w w' : World} → Reach bcrypt w w' → Inv w → Inv w'
Reach-Inv here v = v
Reach-Inv (next r st) v = Step-Inv st (Reach-Inv r v)

-- Whatever requests run, and however the two halves of the joins interleave with them, if each
-- new room has a new id and a place: from a consistent database with no join under way, a room
-- that is there holds at most `maxParticipants` active participations.
pub room_never_overfull :
    {bcrypt : Bcrypt} {w w' : World} (r : ℕ) {room : Room}
    → IsConsistent w.db
    → w.pending ≡ []
    → Reach bcrypt w w'
    → find_room r w'.db ≡ some room
    → count (is_active_in r) w'.db.participants ≤ room.max_participants
room_never_overfull {w} r c idle reach found =
    let v = Reach-Inv reach (record { consistent = c; read = rw idle tt }) in
    rw found at (v.consistent.capacity r)

-- Whatever requests run, and however the two halves of the joins interleave with them, if each
-- new room has a new id and a place: from a consistent database with no join under way, a user
-- has at most one active participation in a room.
pub participation_unique :
    {bcrypt : Bcrypt} {w w' : World} (r u : ℕ)
    → IsConsistent w.db
    → w.pending ≡ []
    → Reach bcrypt w w'
    → count (is_active_of r u) w'.db.participants ≤ 1
participation_unique {w} r u c idle reach =
    (Reach-Inv reach (record { consistent = c; read = rw idle tt })).consistent.unique r u
