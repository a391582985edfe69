-- ===== src/Media.antt =====
-- The media gallery (components/media/MediaWorkspace.tsx): which files are media, and the cards of
-- the gallery. `toLowerCase` and the base of the API's addresses are arguments.
pub mod Loading
pub mod Batches
pub mod Dropped
use clip_to_doc_archive.Prelude.{
  ℕ, ◌||◌, Option, none, some, List, [], ◌∷◌, ◌++◌, if◌then◌else◌, nat_eq, list_eq, is_empty,
  contains, map_filled,
}
use clip_to_doc_archive.Text.{Text, codes, trim, starts_with, after_last}

pub data MediaKind : Type 0 where
  image video : MediaKind

pub record FileItem : Type 0 where
  pub id : Text
  pub original_filename : Text
  pub mime_type : Text
  pub size_bytes : ℕ
  pub download_path : Text

pub record DocumentItem : Type 0 where
  pub id : Text
  pub title : Text
  pub description : Text
  pub event_date : Option Text
  pub ingested_at : Text
  pub file_count : ℕ
  pub files : List FileItem

pub record DocumentPage : Type 0 where
  pub items : List DocumentItem
  pub page : ℕ
  pub size : ℕ
  pub total : ℕ

pub record PreviewFile : Type 0 where
  pub id : Text
  pub original_filename : Text
  pub download_path : Text
  pub url : Text
  pub kind : MediaKind

pub record CardItem : Type 0 where
  pub id : Text
  pub title : Text
  pub description : Text
  pub event_date : Option Text
  pub ingested_at : Text
  pub file_count : ℕ
  pub cover : PreviewFile
  pub media_previews : List PreviewFile

abbrev pub image_extensions : List Text
image_extensions =
    codes "jpg"
    ∷ codes "jpeg"
    ∷ codes "png"
    ∷ codes "gif"
    ∷ codes "webp"
    ∷ codes "bmp"
    ∷ codes "svg"
    ∷ codes "tif"
    ∷ codes "tiff"
    ∷ codes "heic"
    ∷ []

abbrev pub video_extensions : List Text
video_extensions =
    codes "mp4"
    ∷ codes "webm"
    ∷ codes "mov"
    ∷ codes "m4v"
    ∷ codes "avi"
    ∷ codes "mkv"
    ∷ codes "wmv"
    ∷ codes "mpeg"
    ∷ codes "mpg"
    ∷ []

abbrev pub page_size : ℕ
page_size = 48

abbrev pub scan_pages_per_batch : ℕ
scan_pages_per_batch = 4

-- The text behind the last point, or nothing.
abbrev pub text_or_empty : Option Text → Text
text_or_empty none = []
text_or_empty (some s) = s

unfoldable pub extension_of : (Text → Text) → Text → Text
unfolding after_last trim
extension_of lower filename = text_or_empty (after_last b'.' (lower (trim filename)))

unfoldable pub detect_media_kind : (Text → Text) → (filename mime_type : Text) → Option MediaKind
unfolding extension_of starts_with
detect_media_kind lower filename mime_type =
    let ext = extension_of lower filename in
    let mime = lower mime_type in
    if starts_with mime (codes "image/") || contains image_extensions ext
    then some image
    else if starts_with mime (codes "video/") || contains video_extensions ext
    then some video
    else none

-- `fileUrl`: an empty download path stands for a missing one.
abbrev pub file_url : (api_base file_id download_path : Text) → Text
file_url api_base file_id download_path =
    api_base
    ++ (if is_empty download_path
        then codes "/files/" ++ (file_id ++ codes "/download")
        else download_path)

-- `uniqueById`; `seen` is the set of the identifiers met so far.
unique_from : List Text → List CardItem → List CardItem
unique_from seen [] = []
unique_from seen (item ∷ items) =
    let kept = item ∷ unique_from (item.id ∷ seen) items in
    let skipped = unique_from seen items in if contains seen item.id then skipped else kept

unfoldable pub unique_by_id : List CardItem → List CardItem
unfolding unique_from
unique_by_id items = unique_from [] items

module _ (lower : Text → Text) (api_base : Text) where
  -- `toMediaPreviewFromDetail`; `toMediaPreviewFromList` is the same for a file with no MIME type.
  unfoldable pub to_media_preview : FileItem → Option PreviewFile
  unfolding detect_media_kind
  to_media_preview file = elim (detect_media_kind lower file.original_filename file.mime_type) [
    | none ↦ none
    | some kind ↦ some (record {
      id = file.id;
      original_filename = file.original_filename;
      download_path = file.download_path;
      url = file_url api_base file.id file.download_path;
      kind = kind;
    })
  ]

  abbrev pub card_of : DocumentItem → List PreviewFile → Option CardItem
  card_of item [] = none
  card_of item (cover ∷ previews) = some (record {
    id = item.id;
    title = item.title;
    description = item.description;
    event_date = item.event_date;
    ingested_at = item.ingested_at;
    file_count = item.file_count;
    cover = cover;
    media_previews = cover ∷ previews;
  })

  unfoldable pub to_media_card_item : DocumentItem → Option CardItem
  unfolding to_media_preview
  to_media_card_item item =
      card_of item
        (map_filled (λ file. to_media_preview (record file { mime_type = [] })) item.files)
