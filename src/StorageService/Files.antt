-- ===== src/StorageService/Files.antt =====
-- What an upload leaves behind, and that a download gives it back.
use mathlib.Core.List.{append-nil, append_assoc}
use smartmeet_backend.Prelude.{
  ℕ, ◌≡◌, refl, sym, ◌∙◌, Bool, false, some, List, [], ◌∷◌, ◌++◌, arith, any, ok, Result, ◌==◌,
  if◌then◌else◌, Bool-cases, inl, inr, length,
}
use smartmeet_backend.Prelude.Map.{Map, get, set, get-set, get-set_self}
use smartmeet_backend.Prelude.Text.{same_text, text_key}
use smartmeet_backend.StorageService.{
  Storage, UploadResult, slash, storage_text, recording_key, flatten, join_path, after_slash,
  basename, upload_recording, download_recording,
}

abbrev pub has_slash : List ℕ → Bool
has_slash t = any (λ c. c == slash) t

pub flatten-has_slash : (t : List ℕ) → has_slash (flatten t) ≡ false
unfolding flatten
flatten-has_slash [] = refl
flatten-has_slash (c ∷ t) = ground (arith, flatten-has_slash t)

after_slash-plain : (t name : List ℕ) → has_slash t ≡ false → after_slash t name ≡ name ++ t
unfolding after_slash
after_slash-plain [] name h = sym (append-nil name)
after_slash-plain (c ∷ t) name h = elim (Bool-cases (c == slash)) [
  | inl same ↦ ground (arith, same, h)
  | inr other ↦ rw other (
      after_slash-plain t (name ++ (c ∷ [])) (ground (arith, other, h))
      ∙ append_assoc name (c ∷ []) t)
]

after_slash-join :
    (dir t name : List ℕ) → has_slash t ≡ false → after_slash (join_path dir t) name ≡ t
unfolding after_slash
after_slash-join [] t name h = after_slash-plain t [] h
after_slash-join (c ∷ dir) t name h =
    after_slash-join dir t (if c == slash then [] else name ++ (c ∷ [])) h

-- what a download reads after a write, at the path of the write and at the others
module _ (path buffer : List ℕ) (files : Map (List ℕ) (List ℕ)) where
  get-set_other :
      (p : List ℕ) → same_text path p ≡ false → get (set files path buffer) p ≡ get files p
  get-set_other p other = rw (get-set files path p buffer, other) refl

module _ (room file buffer location : List ℕ) (s : Storage) where
  abbrev pub uploaded : Result UploadResult × Storage
  uploaded = upload_recording room file buffer (ok location) s

  -- An upload whose write succeeds answers with a path from which a download then reads the same
  -- bytes, and with their number; every other file is as before, on the disk as in the bucket.
  pub upload_recording-download :
      (r : UploadResult) × (uploaded.0 ≡ ok r)
      × (download_recording r.file_path uploaded.1 ≡ some buffer)
      × (r.file_size ≡ length buffer)
      × ((path : List ℕ)
          → same_text r.file_path path ≡ false
          → download_recording path uploaded.1 ≡ download_recording path s)
  unfolding upload_recording download_recording
  upload_recording-download = elim (Bool-cases s.use_s3) [
    | inl remote ↦
        let key = recording_key room file in
        rw remote (
          _,
          refl,
          get-set_self s.bucket key buffer,
          refl,
          λ path other. get-set_other key buffer s.bucket path other,
        )
    | inr local ↦
        let path = join_path s.local_storage_dir (flatten (recording_key room file)) in
        rw local (
          _,
          refl,
          get-set_self s.disk path buffer,
          refl,
          λ p other. get-set_other path buffer s.disk p other,
        )
  ]

  -- Without credentials the file of an upload is directly in the storage directory, also where the
  -- id of a room has slashes, and its URL is /storage/ and the name of the file.
  pub upload_recording-local :
      s.use_s3 ≡ false
      → (name : List ℕ) × (has_slash name ≡ false)
        × (uploaded.0
            ≡ ok (record {
              file_path = join_path s.local_storage_dir name;
              storage_url = storage_text ++ name;
              file_size = length buffer;
            }))
  unfolding upload_recording basename
  upload_recording-local local =
      let key = recording_key room file in
      let plain = flatten-has_slash key in
      (
        flatten key,
        plain,
        rw local (rw (after_slash-join s.local_storage_dir (flatten key) [] plain) refl),
      )
