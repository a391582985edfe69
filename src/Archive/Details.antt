-- ===== src/Archive/Details.antt =====
-- A document's details and the form that edits them (components/archive/ArchiveWorkspace.tsx).
-- A file of the browser is an `Upload`; nothing reads more of it than that it is there.
pub mod Tags
pub mod Categories
use clip_to_doc_archive.RichContent.{normalize_rich_content_html}
use clip_to_doc_archive.Archive.Documents.{parse_tag_input}
use clip_to_doc_archive.Review.{add_all, set_add}
use clip_to_doc_archive.Prelude.{
  ℕ, Bool, false, not, Option, none, some, List, [], ◌∷◌, ◌++◌, map, if◌then◌else◌, ◌==◌, nat_eq,
  list_eq, is_empty, keep_if, contains,
}
use clip_to_doc_archive.Text.{Text, codes, trim, join}

pub record DocumentFile : Type 0 where
  pub id : Text
  pub original_filename : Text
  pub mime_type : Text
  pub size_bytes : ℕ
  pub checksum_sha256 : Text
  pub storage_backend : Text
  pub download_path : Option Text

pub record DocumentVersion : Type 0 where
  pub version_no : ℕ
  pub changed_at : Text
  pub change_reason : Text
  pub title : Text
  pub event_date : Option Text

pub record VersionSnapshot : Type 0 where
  pub document_id : Text
  pub version_no : ℕ
  pub changed_at : Text
  pub change_reason : Text
  pub title : Text
  pub description : Text
  pub summary : Text
  pub category_id : Option Text
  pub category : Option Text
  pub event_date : Option Text
  pub tags : List Text

pub record DocumentDetail : Type 0 where
  pub id : Text
  pub source : Text
  pub source_ref : Option Text
  pub title : Text
  pub description : Text
  pub caption_raw : Text
  pub summary : Text
  pub category_id : Option Text
  pub category : Option Text
  pub categories : Option (List Text)
  pub event_date : Option Text
  pub ingested_at : Text
  pub is_pinned : Bool
  pub pinned_at : Option Text
  pub review_status : Text
  pub review_reasons : List Text
  pub current_version_no : ℕ
  pub tags : List Text
  pub files : List DocumentFile
  pub versions : List DocumentVersion

-- `Array.from(new Set(names.map((name) => name?.trim()).filter(Boolean)))`
unfoldable pub distinct_names : List Text → List Text
unfolding trim
distinct_names names = add_all [] (keep_if (λ name. not (is_empty name)) (map trim names))

abbrev pub one_category : Option Text → List Text
one_category none = []
one_category (some c) = if is_empty c then [] else c ∷ []

-- The list of categories where there is one that is not empty, else the one category.
abbrev pub categories_or_one : Option (List Text) → Option Text → List Text
categories_or_one none one = one_category one
categories_or_one (some []) one = one_category one
categories_or_one (some (c ∷ cs)) one = c ∷ cs

unfoldable pub initial_categories : DocumentDetail → List Text
unfolding distinct_names
initial_categories d = distinct_names (categories_or_one d.categories d.category)

-- The `edit…` states and the name that is being typed.
pub record EditForm : Type 0 where
  pub title : Text
  pub description_html : Text
  pub summary : Text
  pub category_names : List Text
  pub custom_category_name : Text
  pub event_date : Text
  pub tags : Text
  pub is_pinned : Bool
  pub review_status : Text

abbrev pub blank_form : EditForm
blank_form = record {
  title = [];
  description_html = codes "<p></p>";
  summary = [];
  category_names = [];
  custom_category_name = [];
  event_date = [];
  tags = [];
  is_pinned = false;
  review_status = codes "NONE";
}

abbrev pub or_empty : Option Text → Text
or_empty none = []
or_empty (some s) = s

-- The form as the effect of `[detail]` and `resetDetailMetaEditor` fill it.
unfoldable pub form_of : DocumentDetail → EditForm
unfolding initial_categories normalize_rich_content_html join
form_of d = record {
  title = d.title;
  description_html = normalize_rich_content_html (some d.description);
  summary = d.summary;
  category_names = initial_categories d;
  custom_category_name = [];
  event_date = or_empty d.event_date;
  tags = join (codes ", ") d.tags;
  is_pinned = d.is_pinned;
  review_status = d.review_status;
}

unfoldable pub toggle_category : Text → EditForm → EditForm
unfolding trim
toggle_category category_name f =
    let normalized = trim category_name in
    if is_empty normalized then f else record f {
      category_names =
          if contains f.category_names normalized
          then keep_if (λ name. not (name == normalized)) f.category_names
          else f.category_names ++ normalized ∷ [];
    }

unfoldable pub add_custom_category : EditForm → EditForm
unfolding trim
add_custom_category f =
    let normalized = trim f.custom_category_name in
    if is_empty normalized then f else record f {
      category_names = set_add f.category_names normalized;
      custom_category_name = [];
    }

unfoldable pub remove_category : Text → EditForm → EditForm
remove_category category_name f = record f {
  category_names = keep_if (λ name. not (name == category_name)) f.category_names;
}

-- The body of the request that saves the form.
pub record Payload : Type 0 where
  pub title : Text
  pub description : Text
  pub summary : Text
  pub category_name : Option Text
  pub category_names : List Text
  pub event_date : Option Text
  pub tags : List Text
  pub is_pinned : Bool
  pub review_status : Text

-- `text || null`
abbrev pub filled : Text → Option Text
filled s = if is_empty s then none else some s

-- `names[0] || null`
abbrev pub first_name : List Text → Option Text
first_name [] = none
first_name (name ∷ names) = filled name

unfoldable pub payload_of : EditForm → Payload
unfolding trim normalize_rich_content_html parse_tag_input
payload_of f = record {
  title = trim f.title;
  description = normalize_rich_content_html (some f.description_html);
  summary = f.summary;
  category_name = first_name f.category_names;
  category_names = f.category_names;
  event_date = filled f.event_date;
  tags = parse_tag_input f.tags;
  is_pinned = f.is_pinned;
  review_status = f.review_status;
}
