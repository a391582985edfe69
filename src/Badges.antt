-- ===== src/Badges.antt =====
-- Labels and badges (lib/labels.ts, components/common/FileTypeBadge.tsx): what a value is called, and
-- which type a file has by its name and its MIME type. `lower` is `toLowerCase`.
use clip_to_doc_archive.Search.{ReviewStatus, any_status, none', needs_review, resolved}
use clip_to_doc_archive.Session.Roles.{UserRole, admin, editor, reviewer, viewer}
use clip_to_doc_archive.Media.{extension_of}
use clip_to_doc_archive.Prelude.{
  ◌||◌, Option, none, some, List, [], ◌∷◌, if◌then◌else◌, ◌==◌, nat_eq, list_eq, contains,
}
use clip_to_doc_archive.Text.{Text, codes, starts_with, includes}

abbrev pub user_role_label : Option UserRole → Text
user_role_label (some admin) = codes "관리자"
user_role_label (some editor) = codes "편집자"
user_role_label (some reviewer) = codes "검토자"
user_role_label (some viewer) = codes "조회자"
user_role_label none = codes "-"

abbrev pub review_status_label : ReviewStatus → Text
review_status_label needs_review = codes "검토 필요"
review_status_label resolved = codes "검토 완료"
review_status_label none' = codes "정상"
review_status_label any_status = codes "전체"

abbrev pub source_label : Text → Text
source_label source =
    if source == codes "manual"
    then codes "수동"
    else if source == codes "api"
    then codes "API"
    else if source == codes "wiki"
    then codes "위키"
    else source

pub data FileTypeKind : Type 0 where
  pdf spreadsheet document image presentation archive text other : FileTypeKind

abbrev pub image_types : List Text
image_types =
    codes "jpg"
    ∷ codes "jpeg"
    ∷ codes "png"
    ∷ codes "gif"
    ∷ codes "bmp"
    ∷ codes "webp"
    ∷ codes "tif"
    ∷ codes "tiff"
    ∷ codes "svg"
    ∷ codes "heic"
    ∷ []

abbrev pub spreadsheet_types : List Text
spreadsheet_types = codes "xls" ∷ codes "xlsx" ∷ codes "csv" ∷ codes "ods" ∷ []

abbrev pub document_types : List Text
document_types =
    codes "doc" ∷ codes "docx" ∷ codes "hwp" ∷ codes "hwpx" ∷ codes "odt" ∷ codes "rtf" ∷ []

abbrev pub presentation_types : List Text
presentation_types = codes "ppt" ∷ codes "pptx" ∷ codes "odp" ∷ codes "key" ∷ []

abbrev pub archive_types : List Text
archive_types =
    codes "zip"
    ∷ codes "7z"
    ∷ codes "rar"
    ∷ codes "tar"
    ∷ codes "gz"
    ∷ codes "bz2"
    ∷ codes "xz"
    ∷ []

abbrev pub text_types : List Text
text_types =
    codes "txt"
    ∷ codes "md"
    ∷ codes "log"
    ∷ codes "json"
    ∷ codes "xml"
    ∷ codes "yml"
    ∷ codes "yaml"
    ∷ []

unfoldable pub detect_file_type : (Text → Text) → (filename mime_type : Text) → FileTypeKind
unfolding extension_of includes starts_with
detect_file_type lower filename mime_type =
    let ext = extension_of lower filename in
    let mime = lower mime_type in
    if ext == codes "pdf" || includes mime (codes "pdf")
    then pdf
    else if contains spreadsheet_types ext
        || includes mime (codes "spreadsheet")
        || includes mime (codes "excel")
        || includes mime (codes "csv")
    then spreadsheet
    else if contains document_types ext
        || includes mime (codes "word")
        || includes mime (codes "officedocument.wordprocessingml")
    then document
    else if contains image_types ext || starts_with mime (codes "image/")
    then image
    else if contains presentation_types ext
        || includes mime (codes "presentation")
        || includes mime (codes "powerpoint")
    then presentation
    else if contains archive_types ext
        || includes mime (codes "zip")
        || includes mime (codes "compressed")
    then archive
    else if contains text_types ext || starts_with mime (codes "text/")
    then text
    else other
