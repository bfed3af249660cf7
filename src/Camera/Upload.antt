-- ===== src/Camera/Upload.antt =====
-- The test routes of apps/camera-service/src/api/camera_routes.py for a video file. A body is its number of
-- bytes; `name_of` and `suffix_of` are those of `PurePath`.
use intelligent_multi_camera.Prelude.{
  ℕ, zero, suc, ◌+◌, ◌-◌, ◌*◌, ◌≤◌, ◌<◌, nat_eq, string_eq, ◌≡◌, ◌∙◌, ap, String, Bool, false, not,
  ◌||◌, List, [], ◌∷◌, Option, none, some, arith, ltb, Bool-cases, inl, inr, contains, ◌==◌,
  if◌then◌else◌,
}
use intelligent_multi_camera.Prelude.Text.{same_name}
use intelligent_multi_camera.Shared.Http.{Result, ok, failed}

abbrev pub video_upload_max_bytes : ℕ
video_upload_max_bytes = 262144000

abbrev pub video_upload_chunk_bytes : ℕ
video_upload_chunk_bytes = 1048576

-- `suffix.lower() in ALLOWED_VIDEO_EXTENSIONS`
unfoldable pub allowed_extension : String → Bool
allowed_extension suffix =
    same_name suffix ".mp4"
    || same_name suffix ".avi"
    || same_name suffix ".mkv"
    || same_name suffix ".mov"

abbrev allowed_content_types : List String
allowed_content_types =
    "video/mp4" ∷ "video/x-msvideo" ∷ "video/x-matroska" ∷ "video/quicktime"
    ∷ "application/octet-stream" ∷ []

unfoldable pub allowed_content_type : Option String → Bool
allowed_content_type none = false
allowed_content_type (some t) = contains allowed_content_types t

-- How many bytes `file.read(n)` gives of those that remain.
abbrev read_size : ℕ → ℕ → ℕ
read_size n remaining = if ltb remaining n then remaining else n

-- The loop over the chunks, with the bytes that remain and those read so far; `none` when out of fuel.
unfoldable pub read_chunks : ℕ → ℕ → ℕ → Option (Result ℕ)
read_chunks zero remaining size_bytes = none
read_chunks (suc fuel) remaining size_bytes =
    let chunk = read_size video_upload_chunk_bytes remaining in
    let more = read_chunks fuel (remaining - chunk) (size_bytes + chunk) in
    if chunk == 0
    then some (ok size_bytes)
    else if ltb video_upload_max_bytes (size_bytes + chunk)
    then some (failed 413)
    else more

pub record Accepted : Type 0 where
  pub filename : String
  pub size_bytes : ℕ

abbrev not_empty : String → Result ℕ → Result Accepted
not_empty filename (failed status) = failed status
not_empty filename (ok size_bytes) =
    if size_bytes == 0
    then failed 422
    else ok (record { filename = filename; size_bytes = size_bytes })

abbrev concluded : String → Option (Result ℕ) → Option (Result Accepted)
concluded filename none = none
concluded filename (some read) = some (not_empty filename read)

-- More reads than a file within the limit has chunks.
abbrev pub reads : ℕ
reads = 252

abbrev filename_of : Option String → String
filename_of none = ""
filename_of (some filename) = filename

module _ (name_of suffix_of : String → String) where
  unfoldable pub test_video_file : Option String → Option String → ℕ → Option (Result Accepted)
  test_video_file filename content_type size =
      let name = name_of (filename_of filename) in
      if not (allowed_extension (suffix_of name))
      then some (failed 415)
      else if not (allowed_content_type content_type)
      then some (failed 415)
      else concluded name (read_chunks reads size 0)

nothing_remains :
    (fuel size_bytes : ℕ) → 1 ≤ fuel → read_chunks fuel 0 size_bytes ≡ some (ok size_bytes)
unfolding read_chunks
nothing_remains zero size_bytes h = absurd (omega arith)
nothing_remains (suc fuel) size_bytes h = ground arith

-- What the loop is to answer for a body of this size.
abbrev by_size : ℕ → Option (Result ℕ)
by_size total = some (if ltb video_upload_max_bytes total then failed 413 else ok total)

-- One round, by the size of its chunk.
read_round :
    (chunk size_bytes total : ℕ) (more : Option (Result ℕ))
    → size_bytes ≤ video_upload_max_bytes
    → size_bytes + chunk ≤ total
    → (chunk ≡ 0 → total ≡ size_bytes)
    → (0 < chunk → size_bytes + chunk ≤ video_upload_max_bytes → more ≡ by_size total)
    → (if chunk == 0
        then some (ok size_bytes)
        else if ltb video_upload_max_bytes (size_bytes + chunk)
        then some (failed 413)
        else more)
      ≡ by_size total
read_round chunk size_bytes total more small covers finished rest = elim (nat_eq.dec chunk 0) [
  | yes none_left ↦ ground (arith, finished none_left)
  | no some_left ↦ elim (Bool-cases (ltb video_upload_max_bytes (size_bytes + chunk))) [
    | inl large ↦ ground arith
    | inr fits ↦ ground (arith, rest (omega arith) (ground arith))
  ]
]

read_chunks_total :
    (fuel remaining size_bytes : ℕ)
    → size_bytes ≤ video_upload_max_bytes
    → video_upload_max_bytes + 2 * video_upload_chunk_bytes
      ≤ size_bytes + fuel * video_upload_chunk_bytes
    → read_chunks fuel remaining size_bytes ≡ by_size (size_bytes + remaining)
unfolding read_chunks
read_chunks_total zero remaining size_bytes small enough = absurd (omega arith)
read_chunks_total (suc fuel) remaining size_bytes small enough =
    let chunk = read_size video_upload_chunk_bytes remaining in
    read_round chunk size_bytes (size_bytes + remaining)
      (read_chunks fuel (remaining - chunk) (size_bytes + chunk)) small (ground arith)
      (λ e. ground arith)
      (λ positive fits. elim (Bool-cases (ltb remaining video_upload_chunk_bytes)) [
        | inl last ↦
            let e : remaining - chunk ≡ 0 = ground arith in
            rw e (nothing_remains fuel (size_bytes + chunk) (omega arith) ∙ ground arith)
        | inr full ↦
            let e : chunk ≡ video_upload_chunk_bytes = ground arith in
            let within : chunk ≤ remaining = ground arith in
            read_chunks_total fuel (remaining - chunk) (size_bytes + chunk) fits
              (rw e (omega arith))
            ∙ ap by_size (omega arith)
      ])

-- The route reads every upload to its end or to the limit in at most 252 reads, and answers as the size of the
-- whole body says: too large above 250 MiB, unprocessable when empty, and accepted with its size otherwise; a
-- file with another extension or content type is refused unread.
pub test_video_file_by_size :
    (name_of suffix_of : String → String) (filename content_type : Option String) (size : ℕ)
    → let name = name_of (filename_of filename) in
      test_video_file name_of suffix_of filename content_type size
      ≡ some (
          if not (allowed_extension (suffix_of name)) || not (allowed_content_type content_type)
          then failed 415
          else if ltb video_upload_max_bytes size
          then failed 413
          else if size == 0
          then failed 422
          else ok (record { filename = name; size_bytes = size }))
unfolding test_video_file
test_video_file_by_size name_of suffix_of filename content_type size =
    let read : read_chunks reads size 0
        ≡ some (if ltb video_upload_max_bytes size then failed 413 else ok size) =
      ground (arith, read_chunks_total reads size 0 (omega arith) (omega arith)) in
    rw read (ground arith)
