-- ===== src/Tests/Rules.antt =====
-- The rule form and its token lists at concrete inputs.
use clip_to_doc_archive.Tests.Case.{ascii_lower, ascii_lower-KeepsSmall}
use clip_to_doc_archive.Rules.Tokens.{parse_token_list_input}
use clip_to_doc_archive.Rules.Form.{
  TagMatch, RulesFormState, parse_rules_json_to_form, build_rules_json_from_form,
}
use clip_to_doc_archive.Rules.Form.RoundTrip.{build-parse-build_rules_json}
use clip_to_doc_archive.Prelude.{◌≡◌, refl, List, [], ◌∷◌, nat_eq, list_eq}
use clip_to_doc_archive.Text.{Text, codes, trim}

tokens_of_line :
    parse_token_list_input ascii_lower (codes " Plan, memo,PLAN,, memo 2")
    ≡ codes "Plan" ∷ codes "memo" ∷ codes "memo 2" ∷ []
unfolding parse_token_list_input trim
tokens_of_line = refl

abbrev two_tokens : List Text
two_tokens = codes "Plan" ∷ codes "memo" ∷ []

abbrev sample_form : RulesFormState
sample_form = record {
  default_category = codes " ";
  category_rules =
      record {
        id = [];
        category = codes " 회의 ";
        title_keywords = codes "회의, 회의";
        description_keywords = [];
        filename_keywords = codes "mom";
        body_keywords = [];
        tags = codes ",";
      }
      ∷ [];
  tag_category_rules =
      record { id = []; category = codes "a"; tags = codes "x,y"; match = TagMatch.all } ∷ [];
}

build-parse-build_rules_json_example :
    build_rules_json_from_form ascii_lower (
      parse_rules_json_to_form ascii_lower
        (λ n. n ∷ [])
        (build_rules_json_from_form ascii_lower sample_form))
    ≡ build_rules_json_from_form ascii_lower sample_form
build-parse-build_rules_json_example =
    build-parse-build_rules_json ascii_lower ascii_lower-KeepsSmall (λ n. n ∷ []) sample_form
