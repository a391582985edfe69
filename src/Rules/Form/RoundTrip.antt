-- ===== src/Rules/Form/RoundTrip.antt =====
-- Writing, reading and writing again the rule JSON (components/rules/RulesWorkspace.tsx).
use clip_to_doc_archive.Json.{
  Value, str, obj, end, field, of_list, to_list, texts, show, show_value,
}
use clip_to_doc_archive.Text.Laws.{trim-IsTrimmed}
use clip_to_doc_archive.Rules.Form.{
  is_plain_object, trim_or, default_category_name, map_with_ids, TagMatch, match_text,
  TagCategoryRuleForm, RulesFormState, parse_category_rule, parse_match, parse_tag_category_rule,
  parse_tokens, parse_default_category, parse_rules_json_to_form, build_category_rule,
  build_tag_category_rule, build_rules_json_from_form,
}
use clip_to_doc_archive.Rules.Form.Rows.{tokens, stored, read_stored, build-parse_category_rule}
use clip_to_doc_archive.Prelude.{
  ℕ, suc, ◌≡◌, refl, sym, ap, ◌∙◌, inl, inr, true, false, Option, some, List, [], ◌∷◌, arith,
  Bool-cases, Option-cases, nat_eq, list_eq, is_empty, keep_if, map_filled,
}
use clip_to_doc_archive.Text.{KeepsSmall, Text, codes, trim}

to_list-of_list : (vs : List Value) → to_list (of_list vs) ≡ vs
to_list-of_list [] = refl
to_list-of_list (v ∷ vs) = ap (◌∷◌ v) (to_list-of_list vs)

-- Rows that are each written again as they were are written again as they were, all together.
module _ {A : Type 0} (build : A → Option Value) (parse : Text → Value → A) (ids : ℕ → Text)
    (again : (id : Text) (row : A) (v : Value)
      → build row ≡ some v
      → (is_plain_object v ≡ true) × (build (parse id v) ≡ some v)) where
  map_filled-parse :
      (n : ℕ) (rows : List A)
      → map_filled build
          (map_with_ids ids n parse (keep_if is_plain_object (map_filled build rows)))
        ≡ map_filled build rows
  map_filled-parse n [] = refl
  map_filled-parse n (row ∷ rows) = elim (Option-cases (build row)) [
    | inl skipped ↦ rw (skipped, map_filled) (map_filled-parse n rows)
    | inr (v, built) ↦
        let (plain, same) = again (ids n) row v built in
        rw (built, map_filled) (rw (plain, same) (ap (◌∷◌ v) (map_filled-parse (suc n) rows)))
  ]

module _ (lower : Text → Text) (keeps : KeepsSmall lower) where
  parse_match-match_text : (m : TagMatch) → parse_match lower (some (str (match_text m))) ≡ m
  unfolding parse_match trim show show_value
  parse_match-match_text TagMatch.any = rw (keeps (codes "any") refl)
  parse_match-match_text TagMatch.all = rw (keeps (codes "all") refl)

  -- What `build_tag_category_rule` writes for a row that has a category and tags.
  abbrev payload : TagCategoryRuleForm → Value
  payload row = obj (
      field (codes "category") (str (trim row.category)) (
        field (codes "tags") (texts (tokens lower row.tags))
          (field (codes "match") (str (match_text row.match)) end)))

  build_tag_category_rule_cases :
      (row : TagCategoryRuleForm) (v : Value)
      → build_tag_category_rule lower row ≡ some v
      → (v ≡ payload row) × (is_empty (tokens lower row.tags) ≡ false)
  unfolding build_tag_category_rule
  build_tag_category_rule_cases row v h = ground arith

  build_tag_category_rule_of_same :
      (a b : TagCategoryRuleForm)
      → trim a.category ≡ trim b.category
      → tokens lower a.tags ≡ tokens lower b.tags
      → a.match ≡ b.match
      → build_tag_category_rule lower a ≡ build_tag_category_rule lower b
  unfolding build_tag_category_rule
  build_tag_category_rule_of_same a b c t m = rw (c, t, m)

  build-parse_tag_category_rule :
      (id : Text) (row : TagCategoryRuleForm) (v : Value)
      → build_tag_category_rule lower row ≡ some v
      → (is_plain_object v ≡ true)
        × (build_tag_category_rule lower (parse_tag_category_rule lower id v) ≡ some v)
  unfolding parse_tag_category_rule show show_value
  build-parse_tag_category_rule id row v h =
      let (e, filled) = build_tag_category_rule_cases row v h in
      let kept : stored lower row.tags ≡ some (texts (tokens lower row.tags)) = rw filled in
      (
        rw e,
        rw e (
            build_tag_category_rule_of_same (parse_tag_category_rule lower id (payload row)) row
              (simp trim-IsTrimmed)
              (ap (λ o. tokens lower (parse_tokens lower o)) (sym kept)
                ∙ read_stored lower row.tags)
              (parse_match-match_text row.match)
            ∙ h
            ∙ ap some e),
      )

  parse_default_category_again :
      (s : Text)
      → trim_or default_category_name
          (parse_default_category (some (str (trim_or default_category_name s))))
        ≡ trim_or default_category_name s
  unfolding parse_default_category
  parse_default_category_again s = elim (Bool-cases (is_empty (trim s))) [
    | inl blank ↦ rw blank (unfold trim in refl)
    | inr filled ↦ rw filled (rw (trim-IsTrimmed s, filled) (rw (trim-IsTrimmed s, filled)))
  ]

  -- For every form, and every case map that keeps the code units below 128 that are no capital
  -- letters, the rule JSON that the form writes, read back into a form with any row identifiers
  -- and written again, is the same JSON.
  pub build-parse-build_rules_json :
      (ids : ℕ → Text) (form : RulesFormState)
      → build_rules_json_from_form lower
          (parse_rules_json_to_form lower ids (build_rules_json_from_form lower form))
        ≡ build_rules_json_from_form lower form
  unfolding build_rules_json_from_form parse_rules_json_to_form
  build-parse-build_rules_json ids form = rw (
    to_list-of_list,
    to_list-of_list,
    parse_default_category_again form.default_category,
    map_filled-parse (build_category_rule lower) (parse_category_rule lower) ids
        (build-parse_category_rule lower) 0 form.category_rules,
    map_filled-parse (build_tag_category_rule lower) (parse_tag_category_rule lower) ids
        build-parse_tag_category_rule _ form.tag_category_rules,
  )
