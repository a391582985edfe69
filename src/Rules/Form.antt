-- ===== src/Rules/Form.antt =====
-- The rule form and the rule JSON (components/rules/RulesWorkspace.tsx): reading a JSON object into
-- the form, and writing the form as JSON. `ids n` is the n-th value that `localId` returns.
pub mod Rows
pub mod RoundTrip
use clip_to_doc_archive.Json.{
  Value, Fields, str, arr, obj, end, field, property, get, array_or_empty, of_list, to_list, texts,
  show,
}
use clip_to_doc_archive.Rules.Tokens.{to_string_array, parse_token_list_input, join_token_list}
use clip_to_doc_archive.Prelude.{
  ℕ, suc, Bool, true, false, Option, none, some, List, [], ◌∷◌, if◌then◌else◌, ◌==◌, nat_eq,
  list_eq, length, is_empty, keep_if, map_filled,
}
use clip_to_doc_archive.Text.{Text, codes, trim}

pub record CategoryRuleForm : Type 0 where
  pub id : Text
  pub category : Text
  pub title_keywords : Text
  pub description_keywords : Text
  pub filename_keywords : Text
  pub body_keywords : Text
  pub tags : Text

pub data TagMatch : Type 0 where
  any all : TagMatch

pub record TagCategoryRuleForm : Type 0 where
  pub id : Text
  pub category : Text
  pub tags : Text
  pub match : TagMatch

pub record RulesFormState : Type 0 where
  pub default_category : Text
  pub category_rules : List CategoryRuleForm
  pub tag_category_rules : List TagCategoryRuleForm

abbrev pub is_plain_object : Value → Bool
is_plain_object (obj fields) = true
is_plain_object _ = false

-- `isPlainObject(value) ? value : {}`
abbrev pub object_or_empty : Option Value → Value
object_or_empty (some (obj fields)) = obj fields
object_or_empty _ = obj end

-- `parseRulesJson` on the parsed text: anything but an object is an error (`none`).
abbrev pub parse_rules_json : Value → Option Fields
parse_rules_json (obj fields) = some fields
parse_rules_json _ = none

-- An array, or the array under `versions`; anything else is an error.
abbrev pub normalize_import_versions : Value → Option (List Value)
normalize_import_versions (arr items) = some (to_list items)
normalize_import_versions (obj fields) = elim (get fields (codes "versions")) [
  | some (arr items) ↦ some (to_list items)
  | _ ↦ none
]
normalize_import_versions _ = none

abbrev pub to_nullable_text : Text → Option Text
to_nullable_text value = if is_empty (trim value) then none else some (trim value)

-- `s.trim() || d`
abbrev pub trim_or : Text → Text → Text
trim_or d s = if is_empty (trim s) then d else trim s

abbrev pub default_category_name : Text
default_category_name = codes "기타"

abbrev pub empty_category_rule_form : Text → CategoryRuleForm
empty_category_rule_form id = record {
  id = id;
  category = [];
  title_keywords = [];
  description_keywords = [];
  filename_keywords = [];
  body_keywords = [];
  tags = [];
}

abbrev pub empty_tag_category_rule_form : Text → TagCategoryRuleForm
empty_tag_category_rule_form id = record { id = id; category = []; tags = []; match = any }

-- `rows.map(f)` where each call of `f` draws the next identifier.
abbrev pub map_with_ids : {A B : Type 0} → (ℕ → Text) → ℕ → (Text → A → B) → List A → List B
map_with_ids ids n f [] = []
map_with_ids ids n f (row ∷ rows) = f (ids n) row ∷ map_with_ids ids (suc n) f rows

abbrev pub match_text : TagMatch → Text
match_text any = codes "any"
match_text all = codes "all"

abbrev pub plain_rows : Fields → Text → List Value
plain_rows rules_json name = keep_if is_plain_object (array_or_empty (get rules_json name))

unfoldable pub parse_default_category : Option Value → Text
parse_default_category (some (str s)) = trim_or default_category_name s
parse_default_category _ = default_category_name

-- `if (tokens.length) payload[name] = tokens`, in front of the properties that are set later.
abbrev pub tokens_field : Text → List Text → Fields → Fields
tokens_field name tokens rest = if is_empty tokens then rest else field name (texts tokens) rest

-- `if (Object.keys(keywords).length > 0) payload.keywords = keywords`
abbrev pub keywords_field : Fields → Fields → Fields
keywords_field end rest = rest
keywords_field (field key v fields) rest = field (codes "keywords") (obj (field key v fields)) rest

module _ (lower : Text → Text) where
  abbrev pub parse_tokens : Option Value → Text
  parse_tokens value = join_token_list (to_string_array lower value)

  unfoldable pub parse_category_rule : Text → Value → CategoryRuleForm
  parse_category_rule id row =
      let keywords = object_or_empty (property row (codes "keywords")) in
      record {
        id = id;
        category = trim (show (property row (codes "category")));
        title_keywords = parse_tokens (property keywords (codes "title"));
        description_keywords = parse_tokens (property keywords (codes "description"));
        filename_keywords = parse_tokens (property keywords (codes "filename"));
        body_keywords = parse_tokens (property keywords (codes "body"));
        tags = parse_tokens (property row (codes "tags"));
      }

  -- `String(row.match ?? "any").trim().toLowerCase() === "all" ? "all" : "any"`
  unfoldable pub parse_match : Option Value → TagMatch
  parse_match none = any
  parse_match (some Value.null) = any
  parse_match (some v) = if lower (trim (show (some v))) == codes "all" then all else any

  unfoldable pub parse_tag_category_rule : Text → Value → TagCategoryRuleForm
  parse_tag_category_rule id row = record {
    id = id;
    category = trim (show (property row (codes "category")));
    tags = parse_tokens (property row (codes "tags"));
    match = parse_match (property row (codes "match"));
  }

  unfoldable pub parse_rules_json_to_form : (ℕ → Text) → Fields → RulesFormState
  parse_rules_json_to_form ids rules_json =
      let category_rows = plain_rows rules_json (codes "category_rules") in
      record {
        default_category = parse_default_category (get rules_json (codes "default_category"));
        category_rules = map_with_ids ids 0 parse_category_rule category_rows;
        tag_category_rules =
            map_with_ids ids (length category_rows) parse_tag_category_rule
              (plain_rows rules_json (codes "tag_category_rules"));
      }

  unfoldable pub build_keywords : CategoryRuleForm → Fields
  build_keywords row =
      tokens_field (codes "title") (parse_token_list_input lower row.title_keywords) (
        tokens_field (codes "description") (parse_token_list_input lower row.description_keywords) (
          tokens_field (codes "filename") (parse_token_list_input lower row.filename_keywords)
            (tokens_field (codes "body") (parse_token_list_input lower row.body_keywords) end)))

  unfoldable pub build_category_rule : CategoryRuleForm → Option Value
  build_category_rule row =
      if is_empty (trim row.category)
      then none
      else some (
          obj (
            field (codes "category") (str (trim row.category)) (
              keywords_field (build_keywords row)
                (tokens_field (codes "tags") (parse_token_list_input lower row.tags) end))))

  unfoldable pub build_tag_category_rule : TagCategoryRuleForm → Option Value
  build_tag_category_rule row =
      if is_empty (trim row.category)
      then none
      else if is_empty (parse_token_list_input lower row.tags)
      then none
      else some (
          obj (
            field (codes "category") (str (trim row.category)) (
              field (codes "tags") (texts (parse_token_list_input lower row.tags))
                (field (codes "match") (str (match_text row.match)) end))))

  unfoldable pub build_rules_json_from_form : RulesFormState → Fields
  build_rules_json_from_form form =
      field (codes "default_category") (str (trim_or default_category_name form.default_category)) (
        field (codes "category_rules")
          (arr (of_list (map_filled build_category_rule form.category_rules)))
          (field (codes "tag_category_rules")
            (arr (of_list (map_filled build_tag_category_rule form.tag_category_rules))) end))
