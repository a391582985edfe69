-- ===== src/MindMap/Labels.antt =====
-- The lines of a node's label (components/mindmap/MindMapWorkspace.tsx): pieces of a width, at most so
-- many, the last one clipped where text is left over.
pub mod Lines
use clip_to_doc_archive.Prelude.{
  ℕ, zero, suc, ◌-◌, max, Bool, false, List, [], ◌∷◌, ◌++◌, leb, if◌then◌else◌, length, take, drop,
  is_empty,
}
use clip_to_doc_archive.Text.{Text, codes, is_space, trim}

-- `input.replace(/\s+/g, " ")`; `after` says that white space stands in front.
abbrev pub collapse_from : (after : Bool) → Text → Text
collapse_from after [] = []
collapse_from after (c ∷ s) =
    let rest = collapse_from (is_space c) s in
    if is_space c then (if after then rest else 32 ∷ rest) else c ∷ rest

-- `for (let i = 0; i < text.length; i += maxChars)`, with one round of fuel for each code unit.
unfoldable pub pieces : (fuel max_chars : ℕ) → Text → List Text
pieces zero max_chars text = []
pieces (suc fuel) max_chars text =
    let rest = pieces fuel max_chars (drop max_chars text) in
    if is_empty text then [] else take max_chars text ∷ rest

-- `clipped[lastIdx] = …` of a list that is not empty.
abbrev pub clip_last : (max_chars : ℕ) → List Text → List Text
clip_last max_chars [] = []
clip_last max_chars (line ∷ []) = (take (max 1 (max_chars - 1)) line ++ codes "…") ∷ []
clip_last max_chars (line ∷ next ∷ lines) = line ∷ clip_last max_chars (next ∷ lines)

abbrev pub clip : (max_chars max_lines : ℕ) → List Text → List Text
clip max_chars max_lines lines =
    if leb (length lines) max_lines then lines else clip_last max_chars (take max_lines lines)

unfoldable pub split_label : Text → (max_chars max_lines : ℕ) → List Text
unfolding trim is_space pieces
split_label input max_chars max_lines =
    let text = trim (collapse_from false input) in
    if is_empty text
    then codes "-" ∷ []
    else clip max_chars max_lines (pieces (length text) max_chars text)
