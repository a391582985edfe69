-- ===== src/Review/Selection.antt =====
-- Laws of the selection of the review queue (components/review/ReviewQueueManager.tsx).
use clip_to_doc_archive.Review.{
  ReviewItem, ReviewState, document_ids, set_add, add_all, retain, load_end, toggle, select_all,
}
use clip_to_doc_archive.Prelude.{
  subst, All-contains, All-lookup, contains-keep_if, Distinct-keep_if, ◌≡◌, refl, sym, ap, ◌∙◌, ◌⊎◌,
  inl, inr, true, false, not, ◌&&◌, ◌||◌, List, [], ◌∷◌, ◌++◌, arith, Bool-cases, ◌==◌, nat_eq,
  list_beq_iff, list_eq, keep_if, any, All, All-append, contains, Distinct, contains-append,
  Distinct-concat,
}
use clip_to_doc_archive.Text.{Text}

pub set_add-Distinct : (set : List Text) (id : Text) → Distinct set → Distinct (set_add set id)
set_add-Distinct set id d = elim (Bool-cases (contains set id)) [
  | inl old ↦ rw old d
  | inr new ↦ rw new (Distinct-concat set id d new)
]

pub add_all-Distinct : (set ids : List Text) → Distinct set → Distinct (add_all set ids)
add_all-Distinct set [] d = d
add_all-Distinct set (id ∷ ids) d =
    add_all-Distinct (set_add set id) ids (set_add-Distinct set id d)

retain-Distinct :
    (items : List ReviewItem) (next prev : List Text)
    → Distinct next
    → Distinct (retain items next prev)
retain-Distinct items next [] d = d
retain-Distinct items next (id ∷ prev) d =
    elim (Bool-cases (any (λ x. x.document_id == id) items)) [
      | inl there ↦
          rw there (retain-Distinct items (set_add next id) prev (set_add-Distinct next id d))
      | inr gone ↦ rw gone (retain-Distinct items next prev d)
    ]

toggled-Distinct :
    (id : Text) (s : ReviewState) → Distinct s.selected → Distinct (toggle id s).selected
toggled-Distinct id s d = elim (Bool-cases (contains s.selected id)) [
  | inl old ↦ rw old (Distinct-keep_if _ s.selected d)
  | inr new ↦ rw new (Distinct-concat s.selected id d new)
]

pub contains-set_add :
    (set : List Text) (id k : Text) → contains (set_add set id) k ≡ contains set k || k == id
contains-set_add set id k = elim (Bool-cases (contains set id)) [
  | inl old ↦ rw old (elim (Bool-cases (k == id)) [
    | inl same ↦ ground (arith, ap (contains set) ((list_beq_iff k id).0 same))
    | inr other ↦ ground arith
  ])
  | inr new ↦ rw (new, contains-append set (id ∷ []) k) (ground arith)
]

contains-add_all :
    (set ids : List Text) (k : Text)
    → contains (add_all set ids) k ≡ contains set k || contains ids k
contains-add_all set [] k = ground arith
contains-add_all set (id ∷ ids) k =
    ground (arith, contains-add_all (set_add set id) ids k, contains-set_add set id k)

any-document_id :
    (items : List ReviewItem) (id : Text)
    → any (λ x. x.document_id == id) items ≡ contains (document_ids items) id
any-document_id [] id = refl
any-document_id (item ∷ items) id = ground (
  arith,
  any-document_id items id,
  list_beq_iff item.document_id id,
  list_beq_iff id item.document_id,
)

contains-retain :
    (items : List ReviewItem) (next prev : List Text) (k : Text)
    → contains (retain items next prev) k
      ≡ contains next k || (contains prev k && contains (document_ids items) k)
contains-retain items next [] k = ground arith
contains-retain items next (id ∷ prev) k =
    elim (Bool-cases (any (λ x. x.document_id == id) items)) [
      | inl there ↦ rw there (
          ground (
            arith,
            contains-retain items (set_add next id) prev k,
            contains-set_add next id k,
            any-document_id items id,
            list_beq_iff k id,
          ))
      | inr gone ↦ rw gone (
          ground
            (arith, contains-retain items next prev k, any-document_id items id, list_beq_iff k id))
    ]

-- Every id of the selection belongs to a document of the list, and none is selected twice.
pub record IsSelection (s : ReviewState) : Type 0 where
  pub distinct : Distinct s.selected
  pub listed : All (λ k. contains (document_ids s.items) k ≡ true) s.selected

blank-IsSelection : (s : ReviewState) → s.selected ≡ [] → IsSelection s
blank-IsSelection s e = record {
  distinct = subst Distinct (sym e) tt;
  listed = subst (All (λ k. contains (document_ids s.items) k ≡ true)) (sym e) tt;
}

pub load_end-IsSelection :
    (s : ReviewState) (answer : Text ⊎ List ReviewItem)
    → IsSelection s
    → IsSelection (load_end s answer)
load_end-IsSelection s (inl failure) h = record { distinct = h.distinct; listed = h.listed }
load_end-IsSelection s (inr items) h = record {
  distinct = retain-Distinct items [] s.selected tt;
  listed =
      All-contains _ (retain items [] s.selected)
        (λ k there. ground (arith, contains-retain items [] s.selected k));
}

pub toggle-IsSelection :
    (id : Text) (s : ReviewState)
    → contains (document_ids s.items) id ≡ true
    → IsSelection s
    → IsSelection (toggle id s)
toggle-IsSelection id s there h = record {
  distinct = toggled-Distinct id s h.distinct;
  listed = elim (Bool-cases (contains s.selected id)) [
    | inl old ↦ rw old (
        All-contains _ (keep_if (λ x. not (x == id)) s.selected) (λ k inside.
          All-lookup _ s.selected k h.listed
            (ground (arith, contains-keep_if (λ x. not (x == id)) s.selected k))))
    | inr new ↦ rw new (All-append _ s.selected (id ∷ []) h.listed (there, tt))
  ];
}

pub select_all-IsSelection : (s : ReviewState) → IsSelection (select_all s)
select_all-IsSelection s = record {
  distinct = add_all-Distinct [] (document_ids s.items) tt;
  listed =
      All-contains _ (add_all [] (document_ids s.items))
        (λ k inside. ground (arith, contains-add_all [] (document_ids s.items) k));
}

-- Toggling a document twice leaves each document selected or not as it was.
toggle-toggle :
    (id : Text) (s : ReviewState) (k : Text)
    → contains (toggle id (toggle id s)).selected k ≡ contains s.selected k
toggle-toggle id s k = elim (Bool-cases (contains s.selected id)) [
  | inl old ↦
      let gone : contains (keep_if (λ x. not (x == id)) s.selected) id ≡ false =
        contains-keep_if (λ x. not (x == id)) s.selected id ∙ ground (arith, list_beq_iff id id) in
      rw (old, gone)
        (ground (
          arith,
          contains-append (keep_if (λ x. not (x == id)) s.selected) (id ∷ []) k,
          contains-keep_if (λ x. not (x == id)) s.selected k,
          list_beq_iff k id,
        ))
  | inr new ↦
      let there : contains (s.selected ++ id ∷ []) id ≡ true =
        contains-append s.selected (id ∷ []) id ∙ ground (arith, list_beq_iff id id) in
      rw (new, there)
        (ground (
          arith,
          contains-keep_if (λ x. not (x == id)) (s.selected ++ id ∷ []) k,
          contains-append s.selected (id ∷ []) k,
          list_beq_iff k id,
        ))
]
