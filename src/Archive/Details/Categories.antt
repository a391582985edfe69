-- ===== src/Archive/Details/Categories.antt =====
-- The categories that are chosen for a document (components/archive/ArchiveWorkspace.tsx).
use clip_to_doc_archive.Text.Laws.{trim-IsTrimmed}
use clip_to_doc_archive.Review.{add_all, set_add}
use clip_to_doc_archive.Review.Selection.{set_add-Distinct}
use clip_to_doc_archive.Archive.Details.{
  distinct_names, initial_categories, EditForm, toggle_category, add_custom_category,
  remove_category, form_of, DocumentDetail, categories_or_one,
}
use clip_to_doc_archive.Prelude.{
  All-contains, All-lookup, contains-keep_if, Distinct-keep_if, ◌≡◌, inl, inr, Bool, false, not,
  List, [], ◌∷◌, map, arith, Bool-cases, nat_eq, list_eq, is_empty, keep_if, All, All-append,
  contains, Distinct, Distinct-concat,
}
use clip_to_doc_archive.Text.{Text, trim}

-- A name that can be stored: trimmed and not empty.
abbrev pub IsName : Text → Type 0
IsName name = (trim name ≡ name) × (is_empty name ≡ false)

-- The chosen names are stored names, and none is chosen twice.
pub record IsChoice (names : List Text) : Type 0 where
  pub distinct : Distinct names
  pub stored : All IsName names

set_add-IsChoice :
    (names : List Text) (name : Text) → IsName name → IsChoice names → IsChoice (set_add names name)
set_add-IsChoice names name n h = record {
  distinct = set_add-Distinct names name h.distinct;
  stored = elim (Bool-cases (contains names name)) [
    | inl old ↦ rw old h.stored
    | inr new ↦ rw new (All-append IsName names (name ∷ []) h.stored (n, tt))
  ];
}

add_all-IsChoice :
    (names more : List Text) → All IsName more → IsChoice names → IsChoice (add_all names more)
add_all-IsChoice names [] m h = h
add_all-IsChoice names (name ∷ more) m h =
    add_all-IsChoice (set_add names name) more m.1 (set_add-IsChoice names name m.0 h)

keep_if-IsChoice :
    (p : Text → Bool) (names : List Text) → IsChoice names → IsChoice (keep_if p names)
keep_if-IsChoice p names h = record {
  distinct = Distinct-keep_if p names h.distinct;
  stored = All-contains IsName (keep_if p names) (λ name there.
      All-lookup IsName names name h.stored (ground (arith, contains-keep_if p names name)));
}

trimmed_names :
    (names : List Text) → All IsName (keep_if (λ name. not (is_empty name)) (map trim names))
trimmed_names [] = tt
trimmed_names (name ∷ names) = elim (Bool-cases (is_empty (trim name))) [
  | inl blank ↦ rw blank (trimmed_names names)
  | inr named ↦ rw named ((trim-IsTrimmed name, named), trimmed_names names)
]

distinct_names-IsChoice : (names : List Text) → IsChoice (distinct_names names)
unfolding distinct_names
distinct_names-IsChoice names =
    add_all-IsChoice [] _ (trimmed_names names) (record { distinct = tt; stored = tt })

-- What the user does to the categories of the form.
pub data Choice : Type 0 where
  toggled : Text → Choice
  typed : Text → Choice
  added : Choice
  removed : Text → Choice

pub choose : EditForm → Choice → EditForm
unfolding toggle_category add_custom_category remove_category
choose f (toggled name) = toggle_category name f
choose f (typed name) = record f { custom_category_name = name }
choose f added = add_custom_category f
choose f (removed name) = remove_category name f

pub choose_all : EditForm → List Choice → EditForm
unfolding choose
choose_all f [] = f
choose_all f (c ∷ choices) = choose_all (choose f c) choices

choose-IsChoice :
    (f : EditForm) (c : Choice) → IsChoice f.category_names → IsChoice (choose f c).category_names
unfolding choose
choose-IsChoice f (toggled name) h = elim (Bool-cases (is_empty (trim name))) [
  | inl blank ↦ rw (blank, toggle_category) h
  | inr named ↦ elim (Bool-cases (contains f.category_names (trim name))) [
    | inl old ↦ rw (named, old) (keep_if-IsChoice _ f.category_names h)
    | inr new ↦
        rw (named, new)
          (record {
            distinct = Distinct-concat f.category_names (trim name) h.distinct new;
            stored =
                All-append IsName f.category_names (trim name ∷ []) h.stored
                  ((trim-IsTrimmed name, named), tt);
          })
  ]
]
choose-IsChoice f (typed name) h = h
choose-IsChoice f added h = elim (Bool-cases (is_empty (trim f.custom_category_name))) [
  | inl blank ↦ rw (blank, add_custom_category) h
  | inr named ↦ rw named (
      set_add-IsChoice f.category_names (trim f.custom_category_name)
        (trim-IsTrimmed f.custom_category_name, named) h)
]
choose-IsChoice f (removed name) h = keep_if-IsChoice _ f.category_names h

choose_all-IsChoice :
    (choices : List Choice) (f : EditForm)
    → IsChoice f.category_names
    → IsChoice (choose_all f choices).category_names
unfolding choose_all
choose_all-IsChoice [] f h = h
choose_all-IsChoice (c ∷ choices) f h =
    choose_all-IsChoice choices (choose f c) (choose-IsChoice f c h)

-- Whatever categories a document comes with and the user toggles, adds and removes, those of the
-- form are distinct, trimmed and not empty.
form_of-choose_all-IsChoice :
    (d : DocumentDetail) (choices : List Choice)
    → IsChoice (choose_all (form_of d) choices).category_names
form_of-choose_all-IsChoice d choices = choose_all-IsChoice choices (form_of d) (
    unfold form_of initial_categories in
    distinct_names-IsChoice (categories_or_one d.categories d.category))
