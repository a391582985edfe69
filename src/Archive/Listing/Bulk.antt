-- ===== src/Archive/Listing/Bulk.antt =====
-- What a bulk action of the archive's list leaves (components/archive/ArchiveWorkspace.tsx).
use clip_to_doc_archive.Archive.Listing.{
  Listing, split_settled, settle_needs_review, settle_deleted, bulk_messages, refresh_if,
  close_deleted, is_selected_among, count_text,
}
use clip_to_doc_archive.Prelude.{
  ℕ, ◌+◌, ◌≡◌, refl, ap, ◌∙◌, inl, inr, Bool, true, false, not, ◌&&◌, Option, none, List, [], ◌∷◌,
  ◌++◌, map, arith, if◌then◌else◌, Bool-cases, nat_eq, list_eq, length, is_empty, keep_if, any, all,
}
use clip_to_doc_archive.Text.{Text, codes}

-- The targets with what became of their requests.
abbrev pub outcomes : List Text → List Bool → List (Text × Bool)
outcomes (id ∷ targets) (fulfilled ∷ results) = (id, fulfilled) ∷ outcomes targets results
outcomes _ _ = []

abbrev pub targets_with : Bool → List Text → List Bool → List Text
targets_with want targets results =
    map (λ o. o.0) (keep_if (λ o. if want then o.1 else not o.1) (outcomes targets results))

split_settled_lem :
    (targets : List Text) (results : List Bool)
    → split_settled targets results
      ≡ (targets_with true targets results, targets_with false targets results)
unfolding split_settled
split_settled_lem [] results = refl
split_settled_lem (id ∷ targets) [] = refl
split_settled_lem (id ∷ targets) (true ∷ results) = rw (split_settled_lem targets results) refl
split_settled_lem (id ∷ targets) (false ∷ results) = rw (split_settled_lem targets results) refl

-- Each target succeeded or failed.
outcomes_counted :
    (targets : List Text) (results : List Bool)
    → length targets ≡ length results
    → length (targets_with true targets results) + length (targets_with false targets results)
      ≡ length targets
outcomes_counted [] results h = omega arith
outcomes_counted (id ∷ targets) [] h = absurd (omega arith)
outcomes_counted (id ∷ targets) (true ∷ results) h =
    let rest = outcomes_counted targets results (omega arith) in omega arith
outcomes_counted (id ∷ targets) (false ∷ results) h =
    let rest = outcomes_counted targets results (omega arith) in omega arith

any_succeeded :
    (targets : List Text) (results : List Bool)
    → length targets ≡ length results
    → not (is_empty (targets_with true targets results)) ≡ any (λ r. r) results
any_succeeded [] [] h = refl
any_succeeded [] (r ∷ results) h = absurd (omega arith)
any_succeeded (id ∷ targets) [] h = absurd (omega arith)
any_succeeded (id ∷ targets) (true ∷ results) h = refl
any_succeeded (id ∷ targets) (false ∷ results) h = any_succeeded targets results (omega arith)

none_failed :
    (targets : List Text) (results : List Bool)
    → length targets ≡ length results
    → is_empty (targets_with false targets results) ≡ all (λ r. r) results
none_failed [] [] h = refl
none_failed [] (r ∷ results) h = absurd (omega arith)
none_failed (id ∷ targets) [] h = absurd (omega arith)
none_failed (id ∷ targets) (true ∷ results) h = none_failed targets results (omega arith)
none_failed (id ∷ targets) (false ∷ results) h = refl

abbrev pub failure_text : (part : Text) → (succeeded failed : List Text) → Text
failure_text part succeeded failed =
    codes "일부 실패: "
    ++ (part ++ (codes " " ++ (count_text succeeded ++ (codes ", 실패 " ++ count_text failed))))

-- What a settled bulk action has made of the list: the failed targets stay ticked, every target is
-- counted once, the list is read again exactly where anything succeeded, a full success is a
-- notice and any failure is an error, with the numbers, and the buttons work again.
pub record IsReported (done part : Text) (targets : List Text) (results : List Bool) (l q : Listing)
    : Type 0 where
  pub ticked : q.bulk_selected ≡ targets_with false targets results
  pub counted : length (targets_with true targets results) + length q.bulk_selected ≡ length targets
  pub read_again :
      q.refresh_tick ≡ (if any (λ r. r) results then l.refresh_tick + 1 else l.refresh_tick)
  pub notice : q.bulk_notice ≡ (
      if all (λ r. r) results
      then done ++ count_text (targets_with true targets results)
      else l.bulk_notice)
  pub error : q.bulk_error ≡ (
      if all (λ r. r) results
      then l.bulk_error
      else failure_text part
          (targets_with true targets results)
          (targets_with false targets results))
  pub released : q.bulk_loading ≡ false

-- The end that both actions share, from the two lists of targets.
abbrev finish : (done part : Text) → (succeeded failed : List Text) → Listing → Listing
finish done part succeeded failed l =
    record (bulk_messages done part succeeded failed
      (record (refresh_if (not (is_empty succeeded)) l) { bulk_selected = failed })) {
        bulk_loading = false;
      }

record Fields (done part : Text) (s f : List Text) (l q : Listing) : Type 0 where
  ticked : q.bulk_selected ≡ f
  read_again : q.refresh_tick ≡ (if not (is_empty s) then l.refresh_tick + 1 else l.refresh_tick)
  notice : q.bulk_notice ≡ (if is_empty f then done ++ count_text s else l.bulk_notice)
  error : q.bulk_error ≡ (if is_empty f then l.bulk_error else failure_text part s f)
  released : q.bulk_loading ≡ false
  selection : q.selected_doc_id ≡ l.selected_doc_id
  window : q.is_modal_open ≡ l.is_modal_open

finish_fields :
    (done part : Text) (s f : List Text) (l : Listing)
    → Fields done part s f l (finish done part s f l)
finish_fields done part s [] l = elim (Bool-cases (not (is_empty s))) [
  | inl again ↦ rw again (record {
    ticked = refl;
    read_again = rw again refl;
    notice = refl;
    error = refl;
    released = refl;
    selection = refl;
    window = refl;
  })
  | inr nothing ↦ rw nothing (record {
    ticked = refl;
    read_again = rw nothing refl;
    notice = refl;
    error = refl;
    released = refl;
    selection = refl;
    window = refl;
  })
]
finish_fields done part s (id ∷ f) l = elim (Bool-cases (not (is_empty s))) [
  | inl again ↦ rw again (record {
    ticked = refl;
    read_again = rw again refl;
    notice = refl;
    error = refl;
    released = refl;
    selection = refl;
    window = refl;
  })
  | inr nothing ↦ rw nothing (record {
    ticked = refl;
    read_again = rw nothing refl;
    notice = refl;
    error = refl;
    released = refl;
    selection = refl;
    window = refl;
  })
]

finish-IsReported :
    (done part : Text) (targets : List Text) (results : List Bool) (l : Listing)
    → length targets ≡ length results
    → IsReported done part targets results l (
        finish done part (targets_with true targets results) (targets_with false targets results) l)
finish-IsReported done part targets results l h =
    let s = targets_with true targets results in
    let f = targets_with false targets results in
    let k = finish_fields done part s f l in
    record {
      ticked = k.ticked;
      counted = rw k.ticked (outcomes_counted targets results h);
      read_again =
          k.read_again
          ∙ ap (λ again. if again then l.refresh_tick + 1 else l.refresh_tick)
              (any_succeeded targets results h);
      notice =
          k.notice
          ∙ ap (λ whole. if whole then done ++ count_text s else l.bulk_notice)
              (none_failed targets results h);
      error =
          k.error
          ∙ ap (λ whole. if whole then l.bulk_error else failure_text part s f)
              (none_failed targets results h);
      released = k.released;
    }

needs_review-IsReported :
    (targets : List Text) (results : List Bool) (l : Listing)
    → length targets ≡ length results
    → IsReported
        (codes "검토 필요 상태 변경 완료: ")
        (codes "성공")
        targets
        results
        l
        (settle_needs_review targets results l)
unfolding settle_needs_review
needs_review-IsReported targets results l h =
    rw (split_settled_lem targets results)
      (finish-IsReported (codes "검토 필요 상태 변경 완료: ") (codes "성공") targets results l h)

-- The window is closed and nothing is selected where `chosen` was deleted; else both stay.
pub record IsClosed (deleted : List Text) (chosen : Option Text) (l q : Listing) : Type 0 where
  pub selection :
      q.selected_doc_id ≡ (if is_selected_among deleted chosen then none else l.selected_doc_id)
  pub window : q.is_modal_open ≡ (not (is_selected_among deleted chosen) && l.is_modal_open)

deleted_lem :
    (chosen : Option Text) (targets : List Text) (results : List Bool) (l : Listing)
    → settle_deleted chosen targets results l
      ≡ finish
          (codes "게시물 삭제 완료: ")
          (codes "삭제")
          (targets_with true targets results)
          (targets_with false targets results)
          (close_deleted chosen (targets_with true targets results) l)
unfolding settle_deleted
deleted_lem chosen targets results l = rw (split_settled_lem targets results) refl

closed_lem :
    (deleted : List Text) (chosen : Option Text) (l : Listing)
    → IsClosed deleted chosen l (close_deleted chosen deleted l)
      × ((close_deleted chosen deleted l).refresh_tick ≡ l.refresh_tick)
      × ((close_deleted chosen deleted l).bulk_notice ≡ l.bulk_notice)
      × ((close_deleted chosen deleted l).bulk_error ≡ l.bulk_error)
closed_lem deleted chosen l = elim (Bool-cases (is_selected_among deleted chosen)) [
  | inl among ↦
      rw among (record { selection = rw among refl; window = rw among refl }, refl, refl, refl)
  | inr other ↦
      rw other (record { selection = rw other refl; window = rw other refl }, refl, refl, refl)
]

-- When a bulk deletion is answered, with one result for each target: the failed targets stay
-- ticked, they and the deleted ones are as many as the targets, the list is read again if and only
-- if one was deleted, and the message counts both kinds; if the document that was selected at the
-- press was deleted, nothing is selected and the window is closed, whatever is selected by now,
-- and else the selection and the window stay.
pub deleted-IsReported :
    (chosen : Option Text) (targets : List Text) (results : List Bool) (l : Listing)
    → length targets ≡ length results
    → IsReported
        (codes "게시물 삭제 완료: ")
        (codes "삭제")
        targets
        results
        l
        (settle_deleted chosen targets results l)
      × IsClosed
          (targets_with true targets results)
          chosen
          l
          (settle_deleted chosen targets results l)
deleted-IsReported chosen targets results l h =
    let s = targets_with true targets results in
    let f = targets_with false targets results in
    let l' = close_deleted chosen s l in
    let (c, tick, notice, error) = closed_lem s chosen l in
    let k = finish-IsReported (codes "게시물 삭제 완료: ") (codes "삭제") targets results l' h in
    let m = finish_fields (codes "게시물 삭제 완료: ") (codes "삭제") s f l' in
    rw (deleted_lem chosen targets results l) (
      record {
        ticked = k.ticked;
        counted = k.counted;
        read_again = k.read_again ∙ ap (λ (n : ℕ). if any (λ r. r) results then n + 1 else n) tick;
        notice =
            k.notice
            ∙ ap
                (λ (n : Text).
                  if all (λ r. r) results then codes "게시물 삭제 완료: " ++ count_text s else n)
                notice;
        error =
            k.error
            ∙ ap (λ (n : Text). if all (λ r. r) results then n else failure_text (codes "삭제") s f)
                error;
        released = k.released;
      },
      record { selection = m.selection ∙ c.selection; window = m.window ∙ c.window },
    )
