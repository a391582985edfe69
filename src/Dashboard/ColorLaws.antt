-- ===== src/Dashboard/ColorLaws.antt =====
-- Laws of the colours of the categories (components/dashboard/DashboardSummary.tsx).
use mathlib.Core.Option.{some-injective}
use clip_to_doc_archive.Dashboard.Colors.{
  is_hex, upper, twice, hex_color_of, normalize_hex_color, category_color_palette, first_units,
  hash_from, default_category_color, category_color, normalize_category_color_map,
}
use clip_to_doc_archive.Prelude.{
  subst, ℕ, zero, suc, ◌+◌, ◌%◌, ◌<◌, ◌≡◌, refl, ap, inl, inr, Bool, true, false, ◌&&◌, ◌||◌,
  Option, none, some, List, [], ◌∷◌, map, arith, leb, nat_beq, Bool-cases, Option-cases, ◌==◌,
  nat_eq, list_eq, length, is_empty, all, All, get_elem?,
}
use clip_to_doc_archive.Text.{Text, codes, trim}

abbrev pub is_upper_hex : ℕ → Bool
is_upper_hex c = (leb b'0' c && leb c b'9') || (leb b'A' c && leb c b'F')

-- `#` and six digits, capital letters among them.
abbrev pub is_color : Text → Bool
is_color [] = false
is_color (h ∷ digits) = nat_beq h b'#' && nat_beq (length digits) 6 && all is_upper_hex digits

upper_hex : (c : ℕ) → is_hex c ≡ true → is_upper_hex (upper c) ≡ true
upper_hex c h = ground arith

all-upper : (s : Text) → all is_hex s ≡ true → all is_upper_hex (map upper s) ≡ true
all-upper [] h = refl
all-upper (c ∷ s) h = ground (arith, upper_hex c, all-upper s)

all-twice : (s : Text) → all is_hex s ≡ true → all is_hex (twice s) ≡ true
all-twice [] h = refl
all-twice (c ∷ s) h = ground (arith, all-twice s)

length-twice : (s : Text) → length (twice s) ≡ length s + length s
length-twice [] = omega arith
length-twice (c ∷ s) = omega (arith, length-twice s)

length-upper : (s : Text) → length (map upper s) ≡ length s
length-upper [] = refl
length-upper (c ∷ s) = ap suc (length-upper s)

six_digits :
    (s : Text) → all is_hex s ≡ true → length s ≡ 6 → is_color (map upper (b'#' ∷ s)) ≡ true
six_digits s h n =
    let six : nat_beq (length (map upper s)) 6 ≡ true = ground (arith, length-upper s) in
    rw (six, all-upper s h) refl

of_palette :
    (i : ℕ)
    → i < 9
    → is_color (elim (get_elem? category_color_palette i) [ none ↦ [] | some color ↦ color ]) ≡ true
of_palette zero h = refl
of_palette (suc zero) h = refl
of_palette (suc (suc zero)) h = refl
of_palette (suc (suc (suc zero))) h = refl
of_palette (suc (suc (suc (suc zero)))) h = refl
of_palette (suc (suc (suc (suc (suc zero))))) h = refl
of_palette (suc (suc (suc (suc (suc (suc zero)))))) h = refl
of_palette (suc (suc (suc (suc (suc (suc (suc zero))))))) h = refl
of_palette (suc (suc (suc (suc (suc (suc (suc (suc zero)))))))) h = refl
of_palette (suc (suc (suc (suc (suc (suc (suc (suc (suc i))))))))) h = absurd (omega arith)

hex_color_of-is_color : (s color : Text) → hex_color_of s ≡ some color → is_color color ≡ true
unfolding hex_color_of
hex_color_of-is_color [] color e = cc
hex_color_of-is_color (h ∷ digits) color e =
    elim (Bool-cases (nat_beq h b'#' && all is_hex digits && nat_beq (length digits) 6)) [
      | inl six ↦
          let same = some-injective _ color (rw (six, hex_color_of) at e) in
          subst (λ c. is_color c ≡ true) same (six_digits digits (ground arith) (ground arith))
      | inr not_six ↦
          elim (Bool-cases (nat_beq h b'#' && all is_hex digits && nat_beq (length digits) 3)) [
            | inl three ↦
                let same = some-injective _ color (rw (not_six, three, hex_color_of) at e) in
                subst (λ c. is_color c ≡ true) same
                  (six_digits (twice digits) (all-twice digits (ground arith))
                    (ground (arith, length-twice digits)))
            | inr neither ↦ cc (rw (not_six, neither, hex_color_of) at e)
          ]
    ]

default_category_color-is_color :
    (category : Text) → is_color (default_category_color category) ≡ true
unfolding default_category_color
default_category_color-is_color category = elim (Bool-cases (category == codes "할일")) [
  | inl task ↦ rw task refl
  | inr other ↦ elim (Bool-cases (category == codes "회의")) [
    | inl meeting ↦ rw (other, meeting) refl
    | inr free ↦
        rw (other, free) (of_palette (hash_from 0 (first_units category) % 9) (omega arith))
  ]
]

-- Whatever is stored, the colour map has an entry for each category, in their order, whose colour
-- is a number sign with six hexadecimal digits, letters in capitals.
normalize_category_color_map-is_color :
    (stored : Text → Option Text) (categories : List Text)
    → All (λ entry. is_color entry.1 ≡ true) (normalize_category_color_map stored categories)
      × (map (λ entry. entry.0) (normalize_category_color_map stored categories) ≡ categories)
unfolding normalize_category_color_map category_color normalize_hex_color
normalize_category_color_map-is_color stored [] = (tt, refl)
normalize_category_color_map-is_color stored (category ∷ categories) =
    let (rest, names) = normalize_category_color_map-is_color stored categories in
    ((color category (stored category), rest), ap (◌∷◌ category) names)
  where
    color : (category : Text) (s : Option Text) → is_color (category_color s category) ≡ true
    color category none = default_category_color-is_color category
    color category (some value) = elim (Option-cases (normalize_hex_color (some value))) [
      | inl invalid ↦ rw (invalid, category_color) (default_category_color-is_color category)
      | inr (c, valid) ↦
          rw (valid, category_color)
            (elim (Bool-cases (is_empty value)) [
              | inl blank ↦ cc (rw (blank, normalize_hex_color) at valid)
              | inr filled ↦
                  hex_color_of-is_color (trim value) c (rw (filled, normalize_hex_color) at valid)
            ])
    ]
