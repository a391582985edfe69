-- ===== src/Rules/Tokens.antt =====
-- Token lists of the rule form (components/rules/RulesWorkspace.tsx): keywords and tags, typed as
-- one line and stored as an array with no token twice, upper and lower case counting as one.
pub mod Laws
use clip_to_doc_archive.Json.{Value, Items, str, null, arr, to_list, show_value}
use clip_to_doc_archive.Prelude.{
  ℕ, Bool, ◌||◌, Option, some, List, [], ◌∷◌, map, if◌then◌else◌, ◌==◌, nat_eq, list_eq, is_empty,
  contains,
}
use clip_to_doc_archive.Text.{Text, codes, trim, split, join}

-- `/[,\n]/`
unfoldable pub is_token_end : ℕ → Bool
is_token_end c = c == b',' || c == 10

module _ (lower : Text → Text) where
  -- The loop of `toStringArray` and `parseTokenListInput`: `seen` is the set, and the list that is
  -- built is `out`.
  unfoldable pub collect : List Text → List Text → List Text
  collect seen [] = []
  collect seen (raw ∷ raws) =
      let token = trim raw in
      let skipped = collect seen raws in
      let kept = token ∷ collect (lower token ∷ seen) raws in
      if is_empty token then skipped else if contains seen (lower token) then skipped else kept

  unfoldable pub to_string_array : Option Value → List Text
  unfolding collect show_value
  to_string_array (some (arr items)) = collect [] (map show_value (to_list items))
  to_string_array _ = []

  unfoldable pub parse_token_list_input : Text → List Text
  unfolding collect split is_token_end
  parse_token_list_input value = collect [] (split is_token_end value)

unfoldable pub join_token_list : List Text → Text
unfolding join
join_token_list tokens = join (codes ", ") tokens
