-- ===== src/Preview.antt =====
-- app/services/preview_policy.go: how a file is previewed, and the transport that the client uses.
-- A child for the Range header and one for the bucket's CORS rules.
pub mod Range
pub mod Cors
pub mod Policy
use ponta_drive_api.Base.{ℕ, ◌*◌, Bool, true, false, ◌||◌, List, [], ◌∷◌, if◌then◌else◌}
use ponta_drive_api.Base.Int.{ℤ, pos, leb_ℤ}
use ponta_drive_api.Base.Text.{
  Text, text, same, has_prefix, trim_prefix, trim_space, split, to_lower,
}

abbrev pub max_preview_proxy_bytes : ℤ
max_preview_proxy_bytes = pos (50 * 1024 * 1024)

pub data PreviewKind : Type 0 where
  media fetch_based unsupported : PreviewKind

pub data PreviewStrategy : Type 0 where
  direct proxy fallback : PreviewStrategy

-- The reason that goes with a fallback; `no_reason` is the empty text.
pub data Reason : Type 0 where
  no_reason too_large unsupported_kind : Reason

abbrev pub media_mime_prefixes : List Text
media_mime_prefixes = text "image/" ∷ text "video/" ∷ text "audio/" ∷ []

-- The lookup of a key in a map whose values are all `true`.
unfoldable pub one_of : Text → List Text → Bool
one_of s [] = false
one_of s (t ∷ ts) = same s t || one_of s ts

unfoldable pub media_extensions : List Text
media_extensions =
    text "png"
    ∷ text "jpg"
    ∷ text "jpeg"
    ∷ text "gif"
    ∷ text "webp"
    ∷ text "bmp"
    ∷ text "svg"
    ∷ text "avif"
    ∷ text "heic"
    ∷ text "heif"
    ∷ text "ico"
    ∷ text "tiff"
    ∷ text "tif"
    ∷ text "mp4"
    ∷ text "webm"
    ∷ text "mov"
    ∷ text "mkv"
    ∷ text "avi"
    ∷ text "m4v"
    ∷ text "mp3"
    ∷ text "wav"
    ∷ text "ogg"
    ∷ text "flac"
    ∷ text "aac"
    ∷ text "m4a"
    ∷ text "opus"
    ∷ []

unfoldable pub fetch_based_extensions : List Text
fetch_based_extensions =
    text "pdf"
    ∷ text "txt"
    ∷ text "md"
    ∷ text "markdown"
    ∷ text "json"
    ∷ text "csv"
    ∷ text "xml"
    ∷ text "html"
    ∷ text "htm"
    ∷ text "yaml"
    ∷ text "yml"
    ∷ text "log"
    ∷ text "go"
    ∷ text "js"
    ∷ text "ts"
    ∷ text "tsx"
    ∷ text "jsx"
    ∷ text "py"
    ∷ text "rb"
    ∷ text "java"
    ∷ text "c"
    ∷ text "h"
    ∷ text "cpp"
    ∷ text "cs"
    ∷ text "php"
    ∷ text "rs"
    ∷ text "sh"
    ∷ text "sql"
    ∷ text "css"
    ∷ text "scss"
    ∷ text "vue"
    ∷ text "swift"
    ∷ text "kt"
    ∷ text "doc"
    ∷ text "docx"
    ∷ text "xls"
    ∷ text "xlsx"
    ∷ text "ppt"
    ∷ text "pptx"
    ∷ text "odt"
    ∷ text "ods"
    ∷ text "odp"
    ∷ text "rtf"
    ∷ text "zip"
    ∷ text "rar"
    ∷ text "7z"
    ∷ text "tar"
    ∷ text "gz"
    ∷ text "epub"
    ∷ text "mobi"
    ∷ text "azw3"
    ∷ text "ttf"
    ∷ text "otf"
    ∷ text "woff"
    ∷ text "woff2"
    ∷ text "srt"
    ∷ text "vtt"
    ∷ text "ass"
    ∷ text "ssa"
    ∷ text "lrc"
    ∷ text "msg"
    ∷ text "dxf"
    ∷ text "dwg"
    ∷ []

unfoldable pub any_prefix : Text → List Text → Bool
any_prefix s [] = false
any_prefix s (p ∷ ps) = has_prefix s p || any_prefix s ps

-- `strings.Split(mimeType, ";")[0]`: the result of `Split` is not empty.
abbrev first_part : List Text → Text
first_part [] = []
first_part (w ∷ ws) = w

unfoldable pub normal_mime : Text → Text
normal_mime mime_type = to_lower (trim_space (first_part (split mime_type b';')))

unfoldable pub normal_extension : Text → Text
normal_extension extension = to_lower (trim_prefix (trim_space extension) (text "."))

unfoldable pub classify_preview_kind : Text → Text → PreviewKind
unfolding normal_mime normal_extension
classify_preview_kind mime_type extension =
    let mime = normal_mime mime_type in
    let ext = normal_extension extension in
    if any_prefix mime media_mime_prefixes
    then media
    else if one_of ext media_extensions
    then media
    else if same mime (text "application/pdf") || one_of ext fetch_based_extensions
    then fetch_based
    else if has_prefix mime (text "text/")
    then fetch_based
    else unsupported

unfoldable pub decide_preview_strategy : PreviewKind → ℤ → Bool → PreviewStrategy × Reason
decide_preview_strategy media size public_reachable = (direct, no_reason)
decide_preview_strategy fetch_based size public_reachable =
    if leb_ℤ size max_preview_proxy_bytes
    then (proxy, no_reason)
    else if public_reachable
    then (direct, no_reason)
    else (fallback, too_large)
decide_preview_strategy unsupported size public_reachable = (fallback, unsupported_kind)
