-- ===== src/Validator.antt =====
-- pkg/validator/file.go: the checks on an uploaded file. A byte is a number below 256, and a mask on
-- its high bits is written as a division: b & 0xE0 == 0xC0 is b / 32 == 6. The settings VALIDATE_FILE
-- and MAX_FILE_SIZE are arguments.
pub mod Utf8
pub mod Content
use cdn.ObjectKey.{ext}
use cdn.Text.{has_prefix, ◌=?◌, Text, to_lower, codes, member}
use cdn.Common.{
  ℕ, zero, suc, ◌/◌, Bool, true, false, Option, none, some, ◌∷◌, ltb, ◌==◌, if◌then◌else◌, [], not,
  ◌&&◌, ◌||◌, List, length, all, drop,
}
use cdn.Storage.{Bytes}

pub data FileError : Type 0 where
  file_too_large invalid_file_format invalid_file_content : FileError

-- The bytes of a sequence by its lead byte; none where no sequence begins so.
unfoldable pub sequence_size : ℕ → Option ℕ
sequence_size b =
    if ltb b 0x80
    then some 1
    else if b / 32 == 6
    then some 2
    else if b / 16 == 14
    then some 3
    else if b / 8 == 30
    then some 4
    else none

abbrev pub is_continuation : ℕ → Bool
is_continuation b = b / 64 == 2

-- The continuation bytes of a sequence of this size, and what follows them.
unfoldable pub continued : ℕ → Bytes → Option Bytes
continued zero s = some s
continued (suc n) [] = none
continued (suc n) (b ∷ s) = if is_continuation b then continued n s else none

-- What follows a sequence, by the size of its lead byte.
unfoldable pub sequence_rest : Option ℕ → Bytes → Option Bytes
unfolding continued
sequence_rest (some (suc n)) s = continued n s
sequence_rest _ s = none

-- The loop of isValidUTF8, on fuel: each round takes a byte at least.
unfoldable pub utf8_rounds : ℕ → Bytes → Bool
utf8_rounds f [] = true
utf8_rounds zero (b ∷ s) = false
utf8_rounds (suc f) (b ∷ s) = elim (sequence_rest (sequence_size b) s) [
  | none ↦ false
  | some rest ↦ utf8_rounds f rest
]

-- isValidUTF8
unfoldable pub is_valid_utf8 : Bytes → Bool
unfolding utf8_rounds
is_valid_utf8 content = utf8_rounds (length content) content

-- isValidUTF8Text
unfoldable pub is_valid_utf8_text : Bytes → Bool
is_valid_utf8_text content =
    is_valid_utf8 content && (content =? [] || all (λ b. not (b == 0)) content)

-- isISOBaseMedia
unfoldable pub is_iso_base_media : Bytes → Bool
is_iso_base_media content =
    if ltb (length content) 12 then false else has_prefix (drop 4 content) (codes "ftyp")

-- The values of `magicNumbers`; wav and avi have that of webp.
abbrev pub magic_numbers : List Bytes
magic_numbers =
    (0xFF ∷ 0xD8 ∷ 0xFF ∷ [])
    ∷ (0x89 ∷ 0x50 ∷ 0x4E ∷ 0x47 ∷ [])
    ∷ (0x47 ∷ 0x49 ∷ 0x46 ∷ 0x38 ∷ [])
    ∷ (0x52 ∷ 0x49 ∷ 0x46 ∷ 0x46 ∷ [])
    ∷ (0x42 ∷ 0x4D ∷ [])
    ∷ (0x49 ∷ 0x49 ∷ 0x2A ∷ 0x00 ∷ [])
    ∷ (0x4D ∷ 0x4D ∷ 0x00 ∷ 0x2A ∷ [])
    ∷ (0x50 ∷ 0x4B ∷ 0x03 ∷ 0x04 ∷ [])
    ∷ (0xD0 ∷ 0xCF ∷ 0x11 ∷ 0xE0 ∷ 0xA1 ∷ 0xB1 ∷ 0x1A ∷ 0xE1 ∷ [])
    ∷ (0xFF ∷ 0xFB ∷ [])
    ∷ (0x49 ∷ 0x44 ∷ 0x33 ∷ [])
    ∷ (0x25 ∷ 0x50 ∷ 0x44 ∷ 0x46 ∷ [])
    ∷ []

-- The loop over `magicNumbers`
unfoldable pub has_magic : List Bytes → Bytes → Bool
has_magic [] content = false
has_magic (m ∷ ms) content = has_prefix content m || has_magic ms content

-- isValidFileContent
unfoldable pub is_valid_file_content : Bytes → Bool
is_valid_file_content content =
    if ltb (length content) 4
    then is_valid_utf8_text content
    else if is_iso_base_media content
    then true
    else if has_magic magic_numbers content
    then true
    else is_valid_utf8_text content

-- ValidateFileContent
unfoldable pub validate_file_content : Bool → ℕ → Bytes → Option FileError
validate_file_content validate max_size content =
    if not validate
    then none
    else if ltb max_size (length content)
    then some file_too_large
    else if not (is_valid_file_content content)
    then some invalid_file_content
    else none

-- AllowedFileFormats
abbrev pub allowed_file_formats : List Text
allowed_file_formats =
    codes ".jpg"
    ∷ codes ".jpeg"
    ∷ codes ".png"
    ∷ codes ".gif"
    ∷ codes ".webp"
    ∷ codes ".bmp"
    ∷ codes ".tiff"
    ∷ codes ".svg"
    ∷ codes ".heic"
    ∷ codes ".heif"
    ∷ codes ".avif"
    ∷ codes ".pdf"
    ∷ codes ".doc"
    ∷ codes ".docx"
    ∷ codes ".xls"
    ∷ codes ".xlsx"
    ∷ codes ".ppt"
    ∷ codes ".pptx"
    ∷ codes ".csv"
    ∷ codes ".zip"
    ∷ codes ".sql"
    ∷ codes ".wav"
    ∷ codes ".mp3"
    ∷ codes ".mp4"
    ∷ codes ".mov"
    ∷ codes ".3gp"
    ∷ codes ".avi"
    ∷ []

-- ValidateFile
unfoldable pub validate_file : Bool → ℕ → ℕ → Text → Option FileError
validate_file validate max_size size filename =
    if not validate
    then none
    else if ltb max_size size
    then some file_too_large
    else if not (member (to_lower (ext filename)) allowed_file_formats)
    then some invalid_file_format
    else none
