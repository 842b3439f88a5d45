-- ===== src/Media/Uploads.antt =====
-- src/lib/media/uploads.ts, `checkUpload` and `formatBytes`. A size is a natural number, as browsers
-- and the bucket count; `none` is one that is not finite or not positive.
use lamp_light.Base.{
  ℕ, suc, zero, ◌+◌, ◌*◌, ◌/◌, ◌%◌, ◌≤◌, ◌<◌, ◌≡◌, inl, inr, Bool, true, Option, none, some, List,
  [], ◌∷◌, ◌++◌, any, head?, leb, ltb, if◌then◌else◌, arith, Bool-cases,
}
use lamp_light.Base.Text.{Text, codes, ◌==◌, split, trim, CaseMap}

abbrev pub audio_types : List Text
audio_types =
    codes "audio/mpeg"
    ∷ codes "audio/mp4"
    ∷ codes "audio/x-m4a"
    ∷ codes "audio/aac"
    ∷ codes "audio/ogg"
    ∷ codes "audio/opus"
    ∷ codes "audio/wav"
    ∷ codes "audio/x-wav"
    ∷ codes "audio/webm"
    ∷ codes "audio/flac"
    ∷ []

abbrev pub max_upload_bytes : ℕ
max_upload_bytes = 512 * 1024 * 1024

abbrev pub document_types : List Text
document_types = codes "application/pdf" ∷ codes "text/plain" ∷ []

pub data UploadKind : Type 0 where
  audio document : UploadKind

abbrev pub max_document_bytes : ℕ
max_document_bytes = 25 * 1024 * 1024

pub data UploadCheck : Type 0 where
  accepted : Text → UploadCheck
  rejected : Text → UploadCheck

-- A natural number in a template: its decimal digits, by fuel; twenty are more than a safe integer has.
unfoldable pub decimal_from : ℕ → ℕ → Text → Text
decimal_from zero n digits = digits
decimal_from (suc fuel) n digits =
    let rest = decimal_from fuel (n / 10) ((b'0' + n % 10) ∷ digits) in
    if ltb n 10 then (b'0' + n) ∷ digits else rest

unfoldable pub decimal : ℕ → Text
unfolding decimal_from
decimal n = decimal_from 20 n []

-- `toFixed(1)` and `Math.round` of a quotient by a power of two, to the nearest and upwards from half.
abbrev pub to_nearest : ℕ → ℕ → ℕ
to_nearest n d = (2 * n + d) / (2 * d)

unfoldable pub format_bytes : ℕ → Text
unfolding decimal
format_bytes bytes =
    let tenths = to_nearest (10 * bytes) (1024 * 1024 * 1024) in
    if leb (1024 * 1024 * 1024) bytes
    then decimal (tenths / 10) ++ (codes "." ++ (decimal (tenths % 10) ++ codes " GB"))
    else if leb (1024 * 1024) bytes
    then decimal (to_nearest bytes (1024 * 1024)) ++ codes " MB"
    else if leb 1024 bytes
    then decimal (to_nearest bytes 1024) ++ codes " KB"
    else decimal bytes ++ codes " bytes"

abbrev pub allowed_types : UploadKind → List Text
allowed_types audio = audio_types
allowed_types document = document_types

abbrev pub limit_of : UploadKind → ℕ
limit_of audio = max_upload_bytes
limit_of document = max_document_bytes

abbrev pub no_type_message : UploadKind → Text
no_type_message audio =
    codes "Your browser did not say what kind of file that is. Try an mp3 or m4a."
no_type_message document = codes "Your browser did not say what kind of file that is. Try a PDF."

abbrev pub type_message : UploadKind → Text → Text
type_message audio type =
    type ++ codes " is not a kind of audio this accepts. Use mp3, m4a, wav, or ogg."
type_message document type = type ++ codes " is not a kind of document this accepts. Use a PDF."

abbrev pub size_message : ℕ → ℕ → Text
size_message size limit =
    codes "That file is "
    ++ (format_bytes size ++ (codes ". The limit is " ++ (format_bytes limit ++ codes ".")))

-- The checks of the size.
unfoldable pub check_size : UploadKind → Text → Option ℕ → UploadCheck
unfolding format_bytes
check_size kind type none = rejected (codes "That file appears to be empty.")
check_size kind type (some size) =
    if leb size 0
    then rejected (codes "That file appears to be empty.")
    else if ltb (limit_of kind) size
    then rejected (size_message size (limit_of kind))
    else accepted type

abbrev pub is_allowed : UploadKind → Text → Bool
is_allowed kind type = any (λ t. t == type) (allowed_types kind)

unfoldable pub check_type : UploadKind → Text → Option ℕ → UploadCheck
unfolding check_size ◌==◌
check_type kind [] size = rejected (no_type_message kind)
check_type kind (c ∷ type) size =
    if is_allowed kind (c ∷ type)
    then check_size kind (c ∷ type) size
    else rejected (type_message kind (c ∷ type))

-- `params.contentType.split(';')[0]?.trim().toLowerCase() ?? ''`
unfoldable pub type_of : CaseMap → Text → Text
unfolding split trim
type_of cm content_type = elim (head? (split b';' content_type)) [
  | none ↦ []
  | some t ↦ cm.lower (trim t)
]

unfoldable pub check_upload : CaseMap → UploadKind → Text → Option ℕ → UploadCheck
unfolding check_type type_of
check_upload cm kind content_type size = check_type kind (type_of cm content_type) size

check_size-accepted :
    (kind : UploadKind) (type : Text) (size : Option ℕ) (t : Text)
    → check_size kind type size ≡ accepted t
    → (n : ℕ) × (size ≡ some n) × (0 < n) × (n ≤ limit_of kind) × (type ≡ t)
unfolding check_size
check_size-accepted kind type none t e = cc
check_size-accepted kind type (some n) t e =
    (n, ground arith, ground arith, ground arith, ground arith)

check_type-accepted :
    (kind : UploadKind) (type : Text) (size : Option ℕ) (t : Text)
    → check_type kind type size ≡ accepted t
    → (n : ℕ) × (size ≡ some n) × (0 < n) × (n ≤ limit_of kind) × (is_allowed kind t ≡ true)
unfolding check_type
check_type-accepted kind [] size t e = cc
check_type-accepted kind (c ∷ type) size t e = elim (Bool-cases (is_allowed kind (c ∷ type))) [
  | inr other ↦ absurd (ground arith)
  | inl listed ↦
      let (n, is, positive, fits, same) =
        check_size-accepted kind (c ∷ type) size t (ground arith) in
      (n, is, positive, fits, rw (← same) listed)
]

-- A file that is accepted is of a positive size within the limit of its kind, and the type that is
-- answered for it is on the list of its kind.
pub check_upload-accepted :
    (cm : CaseMap) (kind : UploadKind) (content_type : Text) (size : Option ℕ) (t : Text)
    → check_upload cm kind content_type size ≡ accepted t
    → (n : ℕ) × (size ≡ some n) × (0 < n) × (n ≤ limit_of kind) × (is_allowed kind t ≡ true)
unfolding check_upload
check_upload-accepted cm kind content_type size t e =
    check_type-accepted kind (type_of cm content_type) size t e
