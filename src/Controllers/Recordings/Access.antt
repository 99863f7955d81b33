-- ===== src/Controllers/Recordings/Access.antt =====
-- Who sees which recordings.
use smartmeet_backend.Prelude.{
  ℕ, zero, suc, ◌≡◌, refl, ◌∙◌, Bool, true, false, Option, none, some, List, [], ◌∷◌, ◌++◌, map,
  arith, All, select, take, drop, find_first, is_some, ok, Result, Bool-cases, inl, inr, ◌==◌,
}
use smartmeet_backend.Prelude.Text.{text_key}
use smartmeet_backend.Prelude.Ordering.{Shuffle, Shuffle-All}
use smartmeet_backend.Models.{Database, Room, RoomParticipant, Recording, is_of, find_room}
use smartmeet_backend.RoomService.{has_ever_participated, get_active_participant}
use smartmeet_backend.RoomService.Counting.{find_first_append}
use smartmeet_backend.RoomService.Listing.{page_of}
use smartmeet_backend.StorageService.{Storage, UploadResult, upload_recording, download_recording}
use smartmeet_backend.StorageService.Files.{upload_recording-download}
use smartmeet_backend.Authentication.{AuthUser}
use smartmeet_backend.Controllers.{App}
use smartmeet_backend.Controllers.Recordings.{
  page_number, page_limit, RecordingRow, recording_row, rows_for, joined_rows, group_rows, list,
  find_recording, accessible_recording, bytes, download, create, UploadInputs, new_recording,
  may_upload,
}

module _ {A : Type 0} (P : A → Type 0) where
  All-append : (xs ys : List A) → All P xs → All P ys → All P (xs ++ ys)
  All-append [] ys h k = k
  All-append (x ∷ xs) ys h k = (h.0, All-append xs ys h.1 k)

  All-take : (n : ℕ) (xs : List A) → All P xs → All P (take n xs)
  All-take zero xs h = tt
  All-take (suc n) [] h = tt
  All-take (suc n) (x ∷ xs) h = (h.0, All-take n xs h.1)

  All-drop : (n : ℕ) (xs : List A) → All P xs → All P (drop n xs)
  All-drop zero xs h = h
  All-drop (suc n) [] h = tt
  All-drop (suc n) (x ∷ xs) h = All-drop n xs h.1

  All-select : (p : A → Bool) (xs : List A) → All P xs → All P (select p xs)
  All-select p [] h = tt
  All-select p (x ∷ xs) h = elim (Bool-cases (p x)) [
    | inl fits ↦ rw fits (h.0, All-select p xs h.1)
    | inr other ↦ rw other (All-select p xs h.1)
  ]

-- The user of the request has been in the room of the row's recording.
abbrev pub HasAccess : ℕ → Database → RecordingRow → Type 0
HasAccess user_id db row = has_ever_participated row.recording.room_id user_id db ≡ true

module _ (user_id : ℕ) (db : Database) where
  map-HasAccess :
      (r : Recording) (ps : List RoomParticipant)
      → (is_some (find_first (is_of r.room_id user_id) ps) ≡ true
          → has_ever_participated r.room_id user_id db ≡ true)
      → All
          (HasAccess user_id db)
          (map (λ _. recording_row db r) (select (is_of r.room_id user_id) ps))
  map-HasAccess r [] up = tt
  map-HasAccess r (p ∷ ps) up = elim (Bool-cases (is_of r.room_id user_id p)) [
    | inl fits ↦ rw fits (up (rw fits refl), map-HasAccess r ps (λ _. up (rw fits refl)))
    | inr other ↦ rw other (map-HasAccess r ps (λ h. up (rw other h)))
  ]

  rows_for-HasAccess :
      (r : Recording) (room : Option Room) → All (HasAccess user_id db) (rows_for user_id db r room)
  unfolding has_ever_participated
  rows_for-HasAccess r none = tt
  rows_for-HasAccess r (some _) = map-HasAccess r db.participants (λ h. h)

  joined_rows-HasAccess :
      (rs : List Recording) → All (HasAccess user_id db) (joined_rows user_id db rs)
  unfolding joined_rows
  joined_rows-HasAccess [] = tt
  joined_rows-HasAccess (r ∷ rs) =
      All-append (HasAccess user_id db) (rows_for user_id db r (find_room r.room_id db))
        (joined_rows user_id db rs) (rows_for-HasAccess r (find_room r.room_id db))
        (joined_rows-HasAccess rs)

  group_rows-HasAccess :
      (rows : List RecordingRow)
      → All (HasAccess user_id db) rows
      → All (HasAccess user_id db) (group_rows rows)
  unfolding group_rows
  group_rows-HasAccess [] h = tt
  group_rows-HasAccess (row ∷ rows) h =
      (h.0, All-select (HasAccess user_id db) _ (group_rows rows) (group_rows-HasAccess rows h.1))

-- Every recording on a page of the list is of a room that the user of the request has been in.
pub list-HasAccess :
    (order : List RecordingRow → List RecordingRow) (me : AuthUser) (page limit : ℕ) (db : Database)
    → ((rows : List RecordingRow) → Shuffle rows (order rows))
    → All (HasAccess me.id db) (list order me page limit db).recordings
unfolding list
list-HasAccess order me page limit db same =
    let rows = joined_rows me.id db db.recordings in
    let P = HasAccess me.id db in
    group_rows-HasAccess me.id db (page_of (page_number page) (page_limit limit) (order rows)) (
      All-take P (page_limit limit) (drop _ (order rows)) (
        All-drop P _ (order rows)
          (Shuffle-All P (same rows) (joined_rows-HasAccess me.id db db.recordings))))

accessible_recording-run :
    (me : AuthUser) (id : ℕ) (s : App) (r : Recording)
    → find_recording id s.server.db ≡ some r
    → has_ever_participated r.room_id me.id s.server.db ≡ true
    → accessible_recording me id s ≡ (ok r, s)
unfolding accessible_recording
accessible_recording-run me id s r there been = rw (there, been) refl

module _ (sign : List ℕ → ℕ → List ℕ) where
  download-run :
      (me : AuthUser) (id : ℕ) (s : App) (r : Recording) (content : List ℕ)
      → find_recording id s.server.db ≡ some r
      → has_ever_participated r.room_id me.id s.server.db ≡ true
      → s.storage.use_s3 ≡ false
      → download_recording r.file_path s.storage ≡ some content
      → download sign me id s ≡ (ok (bytes content), s)
  unfolding download
  download-run me id s r content there been local written =
      rw (accessible_recording-run me id s r there been, written, local) refl

-- the end of an upload, from an answer of the storage service that the theorem of uploads gives
abbrev Stored : (buffer : List ℕ) → Result UploadResult × Storage → UploadResult → Type 0
Stored buffer up r = (up.0 ≡ ok r) × (download_recording r.file_path up.1 ≡ some buffer)

upload_recording-Stored :
    (room file buffer location : List ℕ) (s : Storage)
    → (r : UploadResult) × Stored buffer (upload_recording room file buffer (ok location) s) r
upload_recording-Stored room file buffer location s =
    let (r, up, down, _, _) = upload_recording-download room file buffer location s in
    (r, (up, down))

upload_recording-use_s3 :
    (room file buffer location : List ℕ) (s : Storage)
    → (upload_recording room file buffer (ok location) s).1.use_s3 ≡ s.use_s3
unfolding upload_recording
upload_recording-use_s3 room file buffer location s = elim (Bool-cases s.use_s3) [
  | inl remote ↦ rw remote refl
  | inr local ↦ rw local refl
]

module _ (sign : List ℕ → ℕ → List ℕ) (room_text file location : List ℕ)
    (now room_id id duration c : ℕ) (cs : List ℕ) (me : AuthUser) (s : App) where
  abbrev upload_inputs : UploadInputs
  upload_inputs = record { now = now; file = file; written = ok location; recording_id = some id }

  abbrev pub created : Result Recording × App
  created = create room_text upload_inputs me room_id (some (c ∷ cs)) duration s

  -- When the host or a moderator of a room uploads a recording, the write succeeds and the id of
  -- its row is new, everyone who has ever been in the room downloads the same bytes from the local
  -- storage.
  pub create-download :
      may_upload (get_active_participant room_id me.id s.server.db) ≡ true
      → find_recording id s.server.db ≡ none
      → s.storage.use_s3 ≡ false
      → (r : Recording) × (created.0 ≡ ok r)
        × (r.room_id ≡ room_id)
        × ((you : AuthUser)
            → has_ever_participated room_id you.id s.server.db ≡ true
            → download sign you r.id created.1 ≡ (ok (bytes (c ∷ cs)), created.1))
  unfolding create find_recording has_ever_participated
  create-download allowed fresh local =
      let (up, stored) = upload_recording-Stored room_text file (c ∷ cs) location s.storage in
      let (e, down) = stored in
      let r = new_recording now room_id duration up id in
      rw (allowed, e)
        (
          r,
          refl,
          refl,
          λ you been.
              download-run sign you id _ r (c ∷ cs)
                (find_first_append (λ (q : Recording). q.id == id) s.server.db.recordings (r ∷ [])
                    fresh
                  ∙ ground arith)
                been (upload_recording-use_s3 room_text file (c ∷ cs) location s.storage ∙ local)
                down,
        )
