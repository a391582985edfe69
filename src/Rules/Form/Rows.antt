-- ===== src/Rules/Form/Rows.antt =====
-- What the form reads from one row of the JSON that it wrote.
use clip_to_doc_archive.Json.{
  Value, Fields, str, obj, end, field, property, get, of_list, to_list, texts, show, show_value,
}
use clip_to_doc_archive.Text.Laws.{trim-IsTrimmed}
use clip_to_doc_archive.Rules.Tokens.{
  collect, to_string_array, parse_token_list_input, join_token_list,
}
use clip_to_doc_archive.Rules.Tokens.Laws.{
  Fresh, collect_of_Fresh, map-trim_of_Fresh, parse_token_list_input-Fresh,
  parse-join-parse_token_list_input,
}
use clip_to_doc_archive.Rules.Form.{
  is_plain_object, CategoryRuleForm, object_or_empty, parse_category_rule, parse_tokens,
  tokens_field, build_keywords, keywords_field, build_category_rule,
}
use clip_to_doc_archive.Prelude.{
  subst, ◌≡◌, refl, sym, ap, ◌∙◌, true, not, ◌&&◌, Option, none, some, List, [], ◌∷◌, map, arith,
  if◌then◌else◌, ◌==◌, nat_eq, list_eq, is_empty,
}
use clip_to_doc_archive.Text.{Text, codes, trim}

map-show_value_str : (ts : List Text) → map show_value (to_list (of_list (map str ts))) ≡ ts
unfolding show_value
map-show_value_str [] = refl
map-show_value_str (t ∷ ts) = ap (◌∷◌ t) (map-show_value_str ts)

module _ (lower : Text → Text) where
  to_string_array-texts :
      (ts : List Text) → Fresh lower [] ts → to_string_array lower (some (texts ts)) ≡ ts
  unfolding to_string_array
  to_string_array-texts ts h =
      ap (collect lower []) (map-show_value_str ts)
      ∙ collect_of_Fresh lower [] ts
          (subst (Fresh lower []) (sym (map-trim_of_Fresh lower [] ts h)) h)
      ∙ map-trim_of_Fresh lower [] ts h

  -- The line that the form shows for the tokens of a line reads as the same tokens.
  abbrev pub tokens : Text → List Text
  tokens = parse_token_list_input lower

  get-tokens_field :
      (name key : Text) (ts : List Text) (rest : Fields)
      → get (tokens_field key ts rest) name
        ≡ (if key == name && not (is_empty ts) then some (texts ts) else get rest name)
  get-tokens_field name key [] rest = ground arith
  get-tokens_field name key (t ∷ ts) rest = ground arith

  read_array :
      (ts : List Text)
      → Fresh lower [] ts
      → to_string_array lower (if not (is_empty ts) then some (texts ts) else none) ≡ ts
  unfolding to_string_array
  read_array [] h = refl
  read_array (t ∷ ts) h = to_string_array-texts (t ∷ ts) h

  abbrev pub stored : Text → Option Value
  stored value = if not (is_empty (tokens value)) then some (texts (tokens value)) else none

  -- The line that the form shows for the stored tokens of a line reads as the same tokens.
  pub read_stored : (value : Text) → tokens (parse_tokens lower (stored value)) ≡ tokens value
  read_stored value =
      ap (λ ts. tokens (join_token_list ts))
        (read_array (tokens value) (parse_token_list_input-Fresh lower value).0)
      ∙ parse-join-parse_token_list_input lower value

  get-keywords :
      (row : CategoryRuleForm)
      → (get (build_keywords lower row) (codes "title") ≡ stored row.title_keywords)
        × (get (build_keywords lower row) (codes "description") ≡ stored row.description_keywords)
        × (get (build_keywords lower row) (codes "filename") ≡ stored row.filename_keywords)
        × (get (build_keywords lower row) (codes "body") ≡ stored row.body_keywords)
  unfolding build_keywords
  get-keywords row =
      (simp get-tokens_field, simp get-tokens_field, simp get-tokens_field, simp get-tokens_field)

  keywords-keywords_field :
      (fields : Fields) (ts : List Text)
      → object_or_empty
          (get (keywords_field fields (tokens_field (codes "tags") ts end)) (codes "keywords"))
        ≡ obj fields
  keywords-keywords_field end [] = refl
  keywords-keywords_field end (t ∷ ts) = refl
  keywords-keywords_field (field key v fields) ts = refl

  tags-keywords_field :
      (fields : Fields) (ts : List Text)
      → get (keywords_field fields (tokens_field (codes "tags") ts end)) (codes "tags")
        ≡ (if not (is_empty ts) then some (texts ts) else none)
  tags-keywords_field end [] = refl
  tags-keywords_field end (t ∷ ts) = refl
  tags-keywords_field (field key v fields) [] = refl
  tags-keywords_field (field key v fields) (t ∷ ts) = refl

  -- What `build_category_rule` writes for a row that has a category.
  abbrev payload : CategoryRuleForm → Value
  payload row = obj (
      field (codes "category") (str (trim row.category)) (
        keywords_field (build_keywords lower row)
          (tokens_field (codes "tags") (tokens row.tags) end)))

  abbrev SameRow : CategoryRuleForm → CategoryRuleForm → Type 0
  SameRow a b =
      (trim a.category ≡ trim b.category)
      × (tokens a.title_keywords ≡ tokens b.title_keywords)
      × (tokens a.description_keywords ≡ tokens b.description_keywords)
      × (tokens a.filename_keywords ≡ tokens b.filename_keywords)
      × (tokens a.body_keywords ≡ tokens b.body_keywords)
      × (tokens a.tags ≡ tokens b.tags)

  build_category_rule_of_SameRow :
      (a b : CategoryRuleForm)
      → SameRow a b
      → build_category_rule lower a ≡ build_category_rule lower b
  unfolding build_category_rule build_keywords
  build_category_rule_of_SameRow a b (c, t, d, f, k, g) = rw (c, t, d, f, k, g)

  read_property :
      (row : CategoryRuleForm) (name : Text) (value : Text)
      → get (build_keywords lower row) name ≡ stored value
      → tokens (
          parse_tokens lower
            (property (object_or_empty (property (payload row) (codes "keywords"))) name))
        ≡ tokens value
  read_property row name value h =
      ap (λ v. tokens (parse_tokens lower (property v name)))
        (keywords-keywords_field (build_keywords lower row) (tokens row.tags))
      ∙ ap (λ v. tokens (parse_tokens lower v)) h
      ∙ read_stored value

  parse-payload-SameRow :
      (id : Text) (row : CategoryRuleForm)
      → SameRow (parse_category_rule lower id (payload row)) row
  unfolding parse_category_rule show show_value
  parse-payload-SameRow id row =
      let (t, d, f, k) = get-keywords row in
      (
        simp trim-IsTrimmed,
        read_property row (codes "title") row.title_keywords t,
        read_property row (codes "description") row.description_keywords d,
        read_property row (codes "filename") row.filename_keywords f,
        read_property row (codes "body") row.body_keywords k,
        ap (λ v. tokens (parse_tokens lower v))
              (tags-keywords_field (build_keywords lower row) (tokens row.tags))
            ∙ read_stored row.tags,
      )

  payload-build :
      (row : CategoryRuleForm) (v : Value)
      → build_category_rule lower row ≡ some v
      → v ≡ payload row
  unfolding build_category_rule
  payload-build row v h = ground arith

  -- A category rule that the form wrote is an object, and is written again as it was.
  pub build-parse_category_rule :
      (id : Text) (row : CategoryRuleForm) (v : Value)
      → build_category_rule lower row ≡ some v
      → (is_plain_object v ≡ true)
        × (build_category_rule lower (parse_category_rule lower id v) ≡ some v)
  build-parse_category_rule id row v h =
      let e : v ≡ payload row = payload-build row v h in
      (
        rw e,
        rw e (build_category_rule_of_SameRow _ row (parse-payload-SameRow id row) ∙ h ∙ ap some e),
      )
