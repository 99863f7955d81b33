-- ===== src/StorageService.antt =====
-- Where the files of recordings are (src/services/storageService.js): in a bucket of S3, or in the
-- directory `storage` of the disk where no credentials are set. Contents are lists of bytes. What a
-- write answers is an argument: S3's location of the file, which a write to the disk has not, or a
-- failure. S3's signature of a URL is an argument too. UUIDs are texts by a parameter.
pub mod Files
use smartmeet_backend.Prelude.{
  ℕ, Bool, true, false, Option, none, some, List, [], ◌∷◌, ◌++◌, map, ◌==◌, if◌then◌else◌, length,
  Action, Result, ok, err, pure, modify, ◌>>=◌, ◌>>◌,
}
use smartmeet_backend.Prelude.Map.{Map, get, set}
use smartmeet_backend.Prelude.Text.{text_key}

pub record Storage : Type 0 where
  pub use_s3 : Bool
  pub local_storage_dir : List ℕ
  pub disk : Map (List ℕ) (List ℕ)
  pub bucket : Map (List ℕ) (List ℕ)

pub record UploadResult : Type 0 where
  pub file_path : List ℕ
  pub storage_url : List ℕ
  pub file_size : ℕ

abbrev pub slash : ℕ
slash = b'/'

-- "recordings"
abbrev recordings_text : List ℕ
recordings_text = b'r' ∷ b'e' ∷ b'c' ∷ b'o' ∷ b'r' ∷ b'd' ∷ b'i' ∷ b'n' ∷ b'g' ∷ b's' ∷ []

-- ".webm"
abbrev webm_text : List ℕ
webm_text = b'.' ∷ b'w' ∷ b'e' ∷ b'b' ∷ b'm' ∷ []

-- "/storage/"
abbrev pub storage_text : List ℕ
storage_text = slash ∷ b's' ∷ b't' ∷ b'o' ∷ b'r' ∷ b'a' ∷ b'g' ∷ b'e' ∷ slash ∷ []

-- `recordings/${roomId}/${uuidv4()}.${extension}`, from the texts of the two ids
pub recording_key : List ℕ → List ℕ → List ℕ
recording_key room file = recordings_text ++ (slash ∷ room ++ (slash ∷ file ++ webm_text))

-- `replace(/\//g, '_')`
pub flatten : List ℕ → List ℕ
flatten = map (λ c. if c == slash then b'_' else c)

-- `path.join` of the directory and a name without a slash
abbrev pub join_path : List ℕ → List ℕ → List ℕ
join_path dir name = dir ++ (slash ∷ name)

-- `path.basename`: what follows the last slash. The second text is what was read since then.
pub after_slash : List ℕ → List ℕ → List ℕ
after_slash [] name = name
after_slash (c ∷ cs) name = after_slash cs (if c == slash then [] else name ++ (c ∷ []))

pub basename : List ℕ → List ℕ
unfolding after_slash
basename path = after_slash path []

abbrev pub to_s3 : List ℕ → List ℕ → Result (List ℕ) → Action Storage UploadResult
to_s3 key buffer (err e) s = (err e, s)
to_s3 key buffer (ok location) s = (
  ok (record { file_path = key; storage_url = location; file_size = length buffer }),
  record s { bucket = set s.bucket key buffer },
)

abbrev pub to_disk : List ℕ → List ℕ → Result (List ℕ) → Action Storage UploadResult
to_disk path buffer (err e) s = (err e, s)
to_disk path buffer (ok _) s = (
  ok (record {
    file_path = path;
    storage_url = storage_text ++ basename path;
    file_size = length buffer;
  }),
  record s { disk = set s.disk path buffer },
)

unfoldable pub upload_recording :
    (room file buffer : List ℕ) → Result (List ℕ) → Action Storage UploadResult
upload_recording room file buffer written s =
    if s.use_s3
    then to_s3 (recording_key room file) buffer written s
    else to_disk (join_path s.local_storage_dir (flatten (recording_key room file))) buffer written
        s

-- the content that the stream reads, where the file is there
unfoldable pub download_recording : List ℕ → Storage → Option (List ℕ)
download_recording path s = if s.use_s3 then get s.bucket path else get s.disk path

unfoldable pub get_signed_download_url :
    (sign : List ℕ → ℕ → List ℕ) → (file_path storage_url : List ℕ) → ℕ → Storage → List ℕ
get_signed_download_url sign file_path storage_url expires_seconds s =
    if s.use_s3 then sign file_path expires_seconds else storage_url
