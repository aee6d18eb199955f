-- ===== src/FileType.antt =====
-- pkg/filetype/filetype.go: the extensions of content types and of URLs.
pub mod Tables
use cdn.Common.{Bool, Option, none, some, List, [], ◌∷◌, if◌then◌else◌}
use cdn.Text.{Text, codes, ◌=?◌, split, member, to_lower}

-- The cases of the switch, in their order.
abbrev pub content_types : List (Text × Text)
content_types =
    (codes "image/jpeg", codes "jpg")
    ∷ (codes "image/png", codes "png")
    ∷ (codes "image/gif", codes "gif")
    ∷ (codes "image/webp", codes "webp")
    ∷ (codes "image/svg+xml", codes "svg")
    ∷ (codes "application/pdf", codes "pdf")
    ∷ (codes "application/msword", codes "doc")
    ∷ (
      codes "application/vnd.openxmlformats-officedocument.wordprocessingml.document",
      codes "docx",
    )
    ∷ (codes "application/vnd.ms-excel", codes "xls")
    ∷ (codes "application/vnd.openxmlformats-officedocument.spreadsheetml.sheet", codes "xlsx")
    ∷ (codes "application/vnd.ms-powerpoint", codes "ppt")
    ∷ (
      codes "application/vnd.openxmlformats-officedocument.presentationml.presentation",
      codes "pptx",
    )
    ∷ (codes "application/x-autocad", codes "dwg")
    ∷ (codes "application/acad", codes "dwg")
    ∷ (codes "image/vnd.dwg", codes "dwg")
    ∷ (codes "image/x-dwg", codes "dwg")
    ∷ (codes "application/dxf", codes "dxf")
    ∷ (codes "application/zip", codes "zip")
    ∷ (codes "application/x-rar-compressed", codes "rar")
    ∷ (codes "application/x-7z-compressed", codes "7z")
    ∷ (codes "text/plain", codes "txt")
    ∷ (codes "text/csv", codes "csv")
    ∷ []

-- The extension of the first case that matches; empty by default.
unfoldable pub lookup_type : Text → List (Text × Text) → Text
lookup_type content_type [] = []
lookup_type content_type ((t, extension) ∷ rest) =
    if content_type =? t then extension else lookup_type content_type rest

-- GetExtensionFromContentType
unfoldable pub get_extension_from_content_type : Text → Text
get_extension_from_content_type content_type = lookup_type content_type content_types

abbrev pub last_of : Text → List Text → Text
last_of x [] = x
last_of x (y ∷ ys) = last_of y ys

-- The last of at least two parts.
abbrev pub last_part : List Text → Option Text
last_part (x ∷ y ∷ ys) = some (last_of y ys)
last_part _ = none

abbrev pub or_empty : Option Text → Text
or_empty none = []
or_empty (some t) = t

-- GetExtensionFromURL
unfoldable pub get_extension_from_url : Text → Text
get_extension_from_url url = or_empty (last_part (split url b'.'))

abbrev pub valid_extensions : List Text
valid_extensions =
    codes "jpg"
    ∷ codes "jpeg"
    ∷ codes "png"
    ∷ codes "gif"
    ∷ codes "webp"
    ∷ codes "svg"
    ∷ codes "pdf"
    ∷ codes "doc"
    ∷ codes "docx"
    ∷ codes "xls"
    ∷ codes "xlsx"
    ∷ codes "ppt"
    ∷ codes "pptx"
    ∷ codes "dwg"
    ∷ codes "dxf"
    ∷ codes "zip"
    ∷ codes "rar"
    ∷ codes "7z"
    ∷ codes "txt"
    ∷ codes "csv"
    ∷ []

-- IsValidExtension
unfoldable pub is_valid_extension : Text → Bool
unfolding to_lower member
is_valid_extension extension = member (to_lower extension) valid_extensions
