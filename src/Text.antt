-- ===== src/Text.antt =====
-- JavaScript strings as lists of UTF-16 code units, and what the client uses of `String.prototype`:
-- `trim`, `split`, `join`, `replaceAll`, `includes`, `startsWith`, `lastIndexOf`, `padStart`.
-- `toLowerCase` follows the Unicode tables, and is an argument of the definitions that use it.
pub mod Laws
pub mod Splits
pub mod Order
use Prim.Native.Char.{code}
use Prim.Native.String.{String}
use clip_to_doc_archive.Prelude.{
  all, ◌≡◌, ℕ, Bool, true, false, ◌&&◌, ◌||◌, Option, none, some, List, [], ◌∷◌, ◌++◌, ltb, leb,
  if◌then◌else◌, ◌==◌, nat_eq, list_eq, is_empty,
}

abbrev pub Text : Type 0
Text = List ℕ

-- A literal; its characters lie in the basic plane, where a code point is one code unit.
abbrev pub codes : String → Text
codes String.[] = []
codes (String.◌∷◌ c s) = code c ∷ codes s

-- The white space and line ends that `trim` and `\s` remove.
unfoldable pub is_space : ℕ → Bool
is_space c =
    (leb 9 c && leb c 13)
    || c == 32
    || c == 0xa0
    || c == 0x1680
    || (leb 0x2000 c && leb c 0x200a)
    || c == 0x2028
    || c == 0x2029
    || c == 0x202f
    || c == 0x205f
    || c == 0x3000
    || c == 0xfeff

unfoldable pub trim_start : Text → Text
trim_start [] = []
trim_start (c ∷ s) = let rest = trim_start s in if is_space c then rest else c ∷ s

abbrev pub drop_space : ℕ → Text → Text
drop_space c s = if is_space c && is_empty s then [] else c ∷ s

unfoldable pub trim_end : Text → Text
trim_end [] = []
trim_end (c ∷ s) = drop_space c (trim_end s)

unfoldable pub trim : Text → Text
unfolding trim_start trim_end is_space
trim s = trim_end (trim_start s)

abbrev pub push_head : ℕ → List Text → List Text
push_head c [] = (c ∷ []) ∷ []
push_head c (piece ∷ pieces) = (c ∷ piece) ∷ pieces

-- `s.split(/[…]/g)` at every code unit of a class.
unfoldable pub split : (ℕ → Bool) → Text → List Text
split sep [] = [] ∷ []
split sep (c ∷ s) = let rest = split sep s in if sep c then [] ∷ rest else push_head c rest

unfoldable pub join : Text → List Text → Text
join glue [] = []
join glue (piece ∷ []) = piece
join glue (piece ∷ next ∷ pieces) = piece ++ (glue ++ join glue (next ∷ pieces))

-- `s.replaceAll(c, by)` for a pattern of one code unit.
unfoldable pub replace_all : ℕ → Text → Text → Text
replace_all c by [] = []
replace_all c by (d ∷ s) = (if d == c then by else d ∷ []) ++ replace_all c by s

unfoldable pub starts_with : Text → Text → Bool
starts_with s [] = true
starts_with [] (p ∷ ps) = false
starts_with (c ∷ s) (p ∷ ps) = c == p && starts_with s ps

unfoldable pub includes : Text → Text → Bool
unfolding starts_with
includes [] p = starts_with [] p
includes (c ∷ s) p = starts_with (c ∷ s) p || includes s p

-- What stands behind the last `c`, if `c` occurs: `s.slice(s.lastIndexOf(c) + 1)`.
unfoldable pub after_last : ℕ → Text → Option Text
after_last c [] = none
after_last c (d ∷ s) = elim (after_last c s) [
  | some t ↦ some t
  | none ↦ if d == c then some s else none
]

-- What the client relies on of `toLowerCase`: small ASCII letters stay.
abbrev pub is_small : ℕ → Bool
is_small c = leb b'a' c && leb c b'z'

abbrev pub KeepsSmall : (Text → Text) → Type 0
KeepsSmall lower = (s : Text) → all is_small s ≡ true → lower s ≡ s

-- `a < b` on strings, by code units.
unfoldable pub text_ltb : Text → Text → Bool
text_ltb [] [] = false
text_ltb [] (d ∷ t) = true
text_ltb (c ∷ s) [] = false
text_ltb (c ∷ s) (d ∷ t) = ltb c d || (c == d && text_ltb s t)
