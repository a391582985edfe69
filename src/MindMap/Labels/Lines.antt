-- ===== src/MindMap/Labels/Lines.antt =====
-- Laws of the lines of a label (components/mindmap/MindMapWorkspace.tsx).
use clip_to_doc_archive.MindMap.Labels.{collapse_from, pieces, clip_last, clip, split_label}
use clip_to_doc_archive.Prelude.{
  ℕ, zero, suc, ◌-◌, ◌≤◌, ◌<◌, max, ◌≡◌, refl, ap, ◌∙◌, inl, inr, false, List, [], ◌∷◌, ◌++◌, arith,
  leb, Bool-cases, nat_eq, list_eq, length, take, drop, is_empty, length-append, length-take,
  length-drop, All, All-take,
}
use clip_to_doc_archive.Text.{Text, codes, trim}

abbrev pub concat : List Text → Text
concat [] = []
concat (line ∷ lines) = line ++ concat lines

take-append-drop : (n : ℕ) (s : Text) → take n s ++ drop n s ≡ s
take-append-drop zero s = refl
take-append-drop (suc n) [] = refl
take-append-drop (suc n) (c ∷ s) = ap (◌∷◌ c) (take-append-drop n s)

-- Where a piece has at least one character, as much fuel as the label has characters is enough to
-- cut the whole label: its pieces make up the label.
pub concat-pieces :
    (fuel max_chars : ℕ) (text : Text)
    → length text ≤ fuel
    → 0 < max_chars
    → concat (pieces fuel max_chars text) ≡ text
unfolding pieces
concat-pieces zero max_chars [] h k = refl
concat-pieces zero max_chars (c ∷ text) h k = absurd (omega arith)
concat-pieces (suc fuel) max_chars [] h k = refl
concat-pieces (suc fuel) max_chars (c ∷ text) h k =
    let shorter : length (drop max_chars (c ∷ text)) ≤ fuel =
      omega (arith, length-drop max_chars (c ∷ text)) in
    ap (λ rest. take max_chars (c ∷ text) ++ rest)
      (concat-pieces fuel max_chars (drop max_chars (c ∷ text)) shorter k)
    ∙ take-append-drop max_chars (c ∷ text)

abbrev pub IsNarrow : ℕ → Text → Type 0
IsNarrow max_chars line = length line ≤ max_chars

pieces-IsNarrow :
    (fuel max_chars : ℕ) (text : Text) → All (IsNarrow max_chars) (pieces fuel max_chars text)
unfolding pieces
pieces-IsNarrow zero max_chars text = tt
pieces-IsNarrow (suc fuel) max_chars text =
    let rest = pieces-IsNarrow fuel max_chars (drop max_chars text) in
    elim (Bool-cases (is_empty text)) [
      | inl blank ↦ rw blank tt
      | inr more ↦ rw more (omega (arith, length-take max_chars text), rest)
    ]

-- A label that is not blank has a piece.
some_piece :
    (max_chars : ℕ) (text : Text)
    → is_empty text ≡ false
    → 1 ≤ length (pieces (length text) max_chars text)
unfolding pieces
some_piece max_chars [] h = cc
some_piece max_chars (c ∷ text) h = omega arith

clip_last-IsNarrow :
    (max_chars : ℕ) (lines : List Text)
    → 2 ≤ max_chars
    → All (IsNarrow max_chars) lines
    → All (IsNarrow max_chars) (clip_last max_chars lines)
clip_last-IsNarrow max_chars [] h n = tt
clip_last-IsNarrow max_chars (line ∷ []) h n = (
  omega (
    arith,
    length-append (take (max 1 (max_chars - 1)) line) (codes "…"),
    length-take (max 1 (max_chars - 1)) line,
  ),
  tt,
)
clip_last-IsNarrow max_chars (line ∷ next ∷ lines) h n =
    (n.0, clip_last-IsNarrow max_chars (next ∷ lines) h n.1)

length-clip_last :
    (max_chars : ℕ) (lines : List Text) → length (clip_last max_chars lines) ≡ length lines
length-clip_last max_chars [] = refl
length-clip_last max_chars (line ∷ []) = refl
length-clip_last max_chars (line ∷ next ∷ lines) =
    ap suc (length-clip_last max_chars (next ∷ lines))

-- The lines fit the node: at least one and at most so many, none wider than the width.
pub record Fits (max_chars max_lines : ℕ) (lines : List Text) : Type 0 where
  pub some_line : 1 ≤ length lines
  pub count : length lines ≤ max_lines
  pub widths : All (IsNarrow max_chars) lines

clip-Fits :
    (max_chars max_lines : ℕ) (lines : List Text)
    → 2 ≤ max_chars
    → 1 ≤ max_lines
    → 1 ≤ length lines
    → All (IsNarrow max_chars) lines
    → Fits max_chars max_lines (clip max_chars max_lines lines)
clip-Fits max_chars max_lines lines h k filled n =
    elim (Bool-cases (leb (length lines) max_lines)) [
      | inl short ↦ rw short (record { some_line = filled; count = ground arith; widths = n })
      | inr long ↦ rw long (record {
        some_line =
            omega (
              arith,
              length-clip_last max_chars (take max_lines lines),
              length-take max_lines lines,
            );
        count =
            omega (
              arith,
              length-clip_last max_chars (take max_lines lines),
              length-take max_lines lines,
            );
        widths =
            clip_last-IsNarrow max_chars (take max_lines lines) h
              (All-take (IsNarrow max_chars) max_lines lines n);
      })
    ]

-- With at least two characters to a line and at least one line, every label is split into at least
-- one and at most so many lines, each of at most so many characters.
pub split_label-Fits :
    (input : Text) (max_chars max_lines : ℕ)
    → 2 ≤ max_chars
    → 1 ≤ max_lines
    → Fits max_chars max_lines (split_label input max_chars max_lines)
unfolding split_label
split_label-Fits input max_chars max_lines h k =
    let text = trim (collapse_from false input) in
    elim (Bool-cases (is_empty (trim (collapse_from false input)))) [
      | inl blank ↦
          rw blank (record { some_line = omega arith; count = k; widths = (omega arith, tt) })
      | inr more ↦ rw more (
          clip-Fits max_chars max_lines (pieces (length text) max_chars text) h k
            (some_piece max_chars text more) (pieces-IsNarrow (length text) max_chars text))
    ]
