-- ===== src/Controllers/Recordings.antt =====
-- The requests about recordings (src/controllers/recordingController.js). A recording's id and a
-- room's id as a text, and S3's signature of a URL, are arguments.
pub mod Access
pub mod Complete
use smartmeet_backend.Prelude.{
  ℕ, suc, min, String, Bool, true, false, not, ◌&&◌, ◌||◌, Option, none, some, List, [], ◌∷◌, ◌++◌,
  map, length, ◌==◌, leb, if◌then◌else◌, select, find_first, is_none, Action, Result, ok, err, pure,
  gets, modify, or_throw, throw_if, throw, ◌>>=◌, ◌>>◌,
}
use smartmeet_backend.Errors.{Failure, not_found_error, forbidden_error, plain_error}
use smartmeet_backend.Constants.{can_moderate}
use smartmeet_backend.Models.{Database, Room, RoomParticipant, Recording, is_of, find_room}
use smartmeet_backend.RoomService.{get_active_participant, has_ever_participated}
use smartmeet_backend.RoomService.Listing.{Pagination, pagination_of, page_of}
use smartmeet_backend.StorageService.{
  Storage, UploadResult, upload_recording, download_recording, get_signed_download_url,
}
use smartmeet_backend.Authentication.{AuthUser}
use smartmeet_backend.Controllers.{App, on_storage, on_database}

-- `attributes: ['id', 'name', 'hostId']` of the room
pub record RoomSummary : Type 0 where
  pub id : ℕ
  pub name : String
  pub host_id : ℕ

-- A recording with the room that the query joins to it.
pub record RecordingRow : Type 0 where
  pub recording : Recording
  pub room : Option RoomSummary

abbrev pub room_summary : Option Room → Option RoomSummary
room_summary none = none
room_summary (some r) = some (record { id = r.id; name = r.name; host_id = r.host_id })

abbrev pub recording_row : Database → Recording → RecordingRow
recording_row db r = record { recording = r; room = room_summary (find_room r.room_id db) }

-- one joined row for each participation of the user in the recording's room
abbrev pub rows_for : ℕ → Database → Recording → Option Room → List RecordingRow
rows_for user_id db r none = []
rows_for user_id db r (some _) =
    map (λ _. recording_row db r) (select (is_of r.room_id user_id) db.participants)

pub joined_rows : ℕ → Database → List Recording → List RecordingRow
joined_rows user_id db [] = []
joined_rows user_id db (r ∷ rs) =
    rows_for user_id db r (find_room r.room_id db) ++ joined_rows user_id db rs

abbrev pub is_row_of : ℕ → RecordingRow → Bool
is_row_of id row = row.recording.id == id

-- Sequelize makes one instance of the rows with the same primary key, where the first of them is.
pub group_rows : List RecordingRow → List RecordingRow
group_rows [] = []
group_rows (row ∷ rows) =
    row ∷ select (λ other. not (is_row_of row.recording.id other)) (group_rows rows)

pub record RecordingList : Type 0 where
  pub recordings : List RecordingRow
  pub pagination : Pagination

-- `Number(req.query.page) || 1`
abbrev pub page_number : ℕ → ℕ
page_number given = if given == 0 then 1 else given

-- `Math.min(Number(req.query.limit) || 20, 100)`
abbrev pub page_limit : ℕ → ℕ
page_limit given = min (if given == 0 then 20 else given) 100

-- How the query orders the joined rows, by the `createdAt` of their recordings, newest first, is an
-- argument. With `subQuery: false` the limit and the offset are those of the joined rows; with
-- `distinct` the count is that of different recordings. The page and the limit have passed the
-- validation.
unfoldable pub list :
    (order : List RecordingRow → List RecordingRow)
    → AuthUser
    → (given_page given_limit : ℕ) → Database
    → RecordingList
unfolding joined_rows group_rows
list order me given_page given_limit db =
    let rows = joined_rows me.id db db.recordings in
    let page = page_number given_page in
    let limit = page_limit given_limit in
    record {
      recordings = group_rows (page_of page limit (order rows));
      pagination = pagination_of page limit (length (group_rows rows));
    }

-- `Recording.findByPk`
unfoldable pub find_recording : ℕ → Database → Option Recording
find_recording id db = find_first (λ (r : Recording). r.id == id) db.recordings

-- what `getById` and `download` have in common: the recording, for who has been in its room
unfoldable pub accessible_recording : AuthUser → ℕ → Action App Recording
unfolding find_recording
accessible_recording me recording_id = do
  found ← gets (λ s. find_recording recording_id s.server.db)
  r ← or_throw found (not_found_error "Recording not found")
  has_participated ← gets (λ s. has_ever_participated r.room_id me.id s.server.db)
  throw_if (not has_participated) (forbidden_error "You do not have access to this recording")
  pure r

-- a URL of S3, or the route `/api/recordings/<id>/file`
pub data DownloadUrl : Type 0 where
  signed_url : List ℕ → DownloadUrl
  file_route : (recording_id : ℕ) → DownloadUrl

pub record RecordingAnswer : Type 0 where
  pub recording : RecordingRow
  pub download_url : DownloadUrl

-- a redirection to S3, or the bytes of the file
pub data Download : Type 0 where
  redirect : List ℕ → Download
  bytes : List ℕ → Download

abbrev pub expires_seconds : ℕ
expires_seconds = 3600

-- An insert that the database refuses throws its error.
abbrev pub insert_failed : Failure
insert_failed = plain_error "insert or update failed"

-- what the stream of a file that is not there fails with
abbrev pub no_such_file : Failure
no_such_file = plain_error "ENOENT: no such file or directory"

abbrev pub bytes_or_url : Bool → List ℕ → Option (List ℕ) → Action App Download
bytes_or_url true url content = pure (redirect url)
bytes_or_url false url none = throw no_such_file
bytes_or_url false url (some buffer) = pure (bytes buffer)

module _ (sign : List ℕ → ℕ → List ℕ) where
  unfoldable pub url_of : Recording → Storage → List ℕ
  unfolding get_signed_download_url
  url_of r = get_signed_download_url sign r.file_path r.storage_url expires_seconds

  unfoldable pub get_by_id : AuthUser → ℕ → Action App RecordingAnswer
  unfolding accessible_recording url_of
  get_by_id me recording_id = do
    r ← accessible_recording me recording_id
    gets (λ s. record {
      recording = recording_row s.server.db r;
      download_url = if s.storage.use_s3 then signed_url (url_of r s.storage) else file_route r.id;
    })

  unfoldable pub download : AuthUser → ℕ → Action App Download
  unfolding accessible_recording url_of
  download me recording_id = do
    r ← accessible_recording me recording_id
    uses_s3 ← gets (λ s. s.storage.use_s3)
    url ← gets (λ s. url_of r s.storage)
    content ← gets (λ s. download_recording r.file_path s.storage)
    bytes_or_url uses_s3 url content

-- the middleware `express.raw`: a request without a body has no buffer
abbrev pub buffer_or_throw : Option (List ℕ) → Action App (List ℕ)
buffer_or_throw (some (c ∷ cs)) = pure (c ∷ cs)
buffer_or_throw _ = throw (forbidden_error "Recording body must not be empty")

abbrev pub may_upload : Option RoomParticipant → Bool
may_upload none = false
may_upload (some p) = can_moderate p.role

-- what the environment hands to an upload: the text of the new file's id, the answer of the write,
-- and the new row's id, which is `none` where the insert fails
pub record UploadInputs : Type 0 where
  pub now : ℕ
  pub file : List ℕ
  pub written : Result (List ℕ)
  pub recording_id : Option ℕ

-- `Recording.create`
abbrev pub create_recording : Option ℕ → (ℕ → Recording) → Action Database Recording
create_recording none row db = (err insert_failed, db)
create_recording (some id) row db =
    (ok (row id), record db { recordings = db.recordings ++ row id ∷ [] })

abbrev pub new_recording : ℕ → ℕ → ℕ → UploadResult → ℕ → Recording
new_recording now room_id duration r id = record {
  id = id;
  room_id = room_id;
  file_path = r.file_path;
  file_size = r.file_size;
  storage_url = r.storage_url;
  duration = duration;
  created_at = now;
}

-- The duration is `Number(req.query.duration) || 0`.
unfoldable pub create :
    (room_text : List ℕ)
    → UploadInputs
    → AuthUser
    → (room_id : ℕ) → (body : Option (List ℕ)) → (duration : ℕ) → Action App Recording
unfolding on_storage on_database
create room_text i me room_id body duration = do
  acting ← gets (λ s. get_active_participant room_id me.id s.server.db)
  throw_if (not (may_upload acting))
      (forbidden_error "Only the host or a moderator can upload a recording for this room")
  buffer ← buffer_or_throw body
  upload ← on_storage (upload_recording room_text i.file buffer i.written)
  on_database (create_recording i.recording_id (new_recording i.now room_id duration upload))
