-- ===== src/Dashboard/Colors.antt =====
-- The colours of the categories (`normalizeHexColor`, `defaultCategoryColor`,
-- `normalizeCategoryColorMap`).
use Prim.Native.Nat.{◌^◌}
use clip_to_doc_archive.Prelude.{
  ℕ, ◌+◌, ◌-◌, ◌*◌, ◌%◌, Bool, ◌&&◌, ◌||◌, Option, none, some, List, [], ◌∷◌, map, leb, nat_beq,
  if◌then◌else◌, ◌==◌, nat_eq, list_eq, length, is_empty, all, get_elem?,
}
use clip_to_doc_archive.Text.{Text, codes, trim}

abbrev pub is_hex : ℕ → Bool
is_hex c = (leb b'0' c && leb c b'9') || (leb b'a' c && leb c b'f') || (leb b'A' c && leb c b'F')

-- `toUpperCase` on what a colour is made of.
abbrev pub upper : ℕ → ℕ
upper c = if leb b'a' c && leb c b'z' then c - 32 else c

abbrev pub twice : Text → Text
twice [] = []
twice (c ∷ s) = c ∷ c ∷ twice s

-- The two tests on the trimmed text, and what is made of it.
unfoldable pub hex_color_of : Text → Option Text
hex_color_of [] = none
hex_color_of (h ∷ digits) =
    if nat_beq h b'#' && all is_hex digits && nat_beq (length digits) 6
    then some (map upper (b'#' ∷ digits))
    else if nat_beq h b'#' && all is_hex digits && nat_beq (length digits) 3
    then some (map upper (b'#' ∷ twice digits))
    else none

unfoldable pub normalize_hex_color : Option Text → Option Text
unfolding hex_color_of trim
normalize_hex_color none = none
normalize_hex_color (some value) = if is_empty value then none else hex_color_of (trim value)

abbrev pub category_color_palette : List Text
category_color_palette =
    codes "#059669"
    ∷ codes "#0284C7"
    ∷ codes "#7C3AED"
    ∷ codes "#EA580C"
    ∷ codes "#D9466F"
    ∷ codes "#0F766E"
    ∷ codes "#475569"
    ∷ codes "#7C2D12"
    ∷ codes "#166534"
    ∷ []

-- `Array.from(category)` and `charCodeAt(0)`: of a surrogate pair only the first half counts.
unfoldable pub first_units : Text → List ℕ
first_units [] = []
first_units (c ∷ []) = c ∷ []
first_units (c ∷ d ∷ s) =
    let paired = c ∷ first_units s in
    let single = c ∷ first_units (d ∷ s) in
    if leb 55296 c && leb c 56319 && leb 56320 d && leb d 57343 then paired else single

abbrev pub hash_from : ℕ → List ℕ → ℕ
hash_from acc [] = acc
hash_from acc (c ∷ cs) = hash_from ((acc * 31 + c) % 2 ^ 32) cs

unfoldable pub default_category_color : Text → Text
unfolding first_units
default_category_color category =
    if category == codes "할일"
    then codes "#059669"
    else if category == codes "회의"
    then codes "#0284C7"
    else elim (get_elem? category_color_palette (hash_from 0 (first_units category) % 9)) [
      | none ↦ []
      | some color ↦ color
    ]

-- The colour of a category: the one that is stored if it is a colour, or the default.
unfoldable pub category_color : Option Text → Text → Text
unfolding normalize_hex_color default_category_color
category_color stored category = elim (normalize_hex_color stored) [
  | none ↦ default_category_color category
  | some color ↦ color
]

-- `raw?.[category]` is `stored category`.
unfoldable pub normalize_category_color_map : (Text → Option Text) → List Text → List (Text × Text)
unfolding category_color
normalize_category_color_map stored categories =
    map (λ category. (category, category_color (stored category) category)) categories
