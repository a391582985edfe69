-- ===== src/Tests/Panel.antt =====
-- The panel of one document at concrete inputs.
use clip_to_doc_archive.Archive.Details.{DocumentDetail, DocumentFile, blank_form}
use clip_to_doc_archive.Archive.Panel.{
  Upload, select_doc, detail_loaded, detail_effects, files_effect, form_effect,
}
use clip_to_doc_archive.Archive.Panel.Requests.{updated, replace_file, replace_detail_file, settle}
use clip_to_doc_archive.Archive.Panel.Work.{
  Work, Event, chosen, closed, tab_pressed, loaded, answered, edit_pressed, typed, upload_chosen,
  replace_pressed, save_pressed, is_shown, is_selected, step, steps, react, idle,
}
use clip_to_doc_archive.Archive.Panel.{files}
use clip_to_doc_archive.Archive.Panel.Work.Busy.{IsLocked, idle-steps-IsLocked}
use clip_to_doc_archive.Archive.Panel.Work.Targets.{IsAddressed, steps-replace-IsAddressed}
use clip_to_doc_archive.Archive.Panel.Current.{IsAt, CalmRun, overtaken-answer}
use clip_to_doc_archive.Archive.Panel.Calm.{calm-IsCurrent}
use clip_to_doc_archive.Archive.Panel.Hidden.{IsUntitled, untitled-hidden}
use clip_to_doc_archive.Prelude.{
  ◌≡◌, refl, inr, true, false, none, some, List, [], ◌∷◌, ◌++◌, nat_eq, list_eq,
}
use clip_to_doc_archive.Text.{Text, codes, trim}

abbrev file_of : Text → DocumentFile
file_of id = record {
  id = id;
  original_filename = codes "minutes.pdf";
  mime_type = codes "application/pdf";
  size_bytes = 2048;
  checksum_sha256 = [];
  storage_backend = codes "disk";
  download_path = none;
}

abbrev document : Text → DocumentDetail
document id = record {
  id = id;
  source = codes "manual";
  source_ref = none;
  title = codes "Minutes";
  description = [];
  caption_raw = [];
  summary = [];
  category_id = none;
  category = none;
  categories = none;
  event_date = none;
  ingested_at = codes "2025-08-01";
  is_pinned = false;
  pinned_at = none;
  review_status = codes "NONE";
  review_reasons = [];
  current_version_no = 1;
  tags = [];
  files = file_of (codes "f1") ∷ [];
  versions = [];
}

abbrev scan : Upload
scan = record { name = codes "scan.pdf"; bytes = 10 }

abbrev replacing : List Event
replacing =
    chosen (codes "a")
    ∷ loaded (inr (document (codes "a")))
    ∷ tab_pressed files
    ∷ upload_chosen (some scan)
    ∷ []

abbrev replaced : List Event
replaced = replacing ++ replace_pressed ∷ answered (updated (document (codes "a"))) ∷ []

idle-steps-IsLocked_example :
    IsLocked (steps (idle true) replaced).panel (steps (idle true) replaced).sent
idle-steps-IsLocked_example =
    idle-steps-IsLocked true replaced (tt, (tt, (tt, (tt, (tt, (tt, tt))))))

replacing-sends :
    (replace_detail_file (steps (idle true) replacing).panel).1
    ≡ some (replace_file (codes "a") (codes "f1") scan)
unfolding steps step react select_doc detail_loaded detail_effects files_effect form_effect
    replace_detail_file
replacing-sends = refl

steps-replace-IsAddressed_example :
    IsAddressed (steps (idle true) replacing).panel.detail (codes "a") (codes "f1")
steps-replace-IsAddressed_example =
    steps-replace-IsAddressed true replacing (codes "a") (codes "f1") scan
      (tt, (tt, (tt, (tt, tt)))) replacing-sends

replaced-CalmRun : CalmRun (idle true) replaced
unfolding step react select_doc detail_loaded detail_effects files_effect form_effect
    replace_detail_file settle
replaced-CalmRun = (refl, (refl, (tt, (tt, (tt, (refl, tt))))))

replaced-shown : is_shown (steps (idle true) replaced).panel ≡ true
unfolding steps step react select_doc detail_loaded detail_effects files_effect form_effect
    replace_detail_file settle
replaced-shown = refl

calm-IsCurrent_example :
    IsAt
      (steps (idle true) replaced).panel.detail
      (steps (idle true) replaced).panel.selected_doc_id
calm-IsCurrent_example = calm-IsCurrent true replaced replaced-CalmRun replaced-shown

-- The editor of a document with a blank title.
abbrev untitled : List Event
untitled =
    chosen (codes "a") ∷ loaded (inr (document (codes "a"))) ∷ edit_pressed ∷ typed blank_form ∷ []

untitled-IsUntitled : IsUntitled (codes "a") (steps (idle true) untitled)
unfolding steps step react select_doc detail_loaded detail_effects files_effect form_effect trim
untitled-IsUntitled = record {
  shown = refl;
  free = refl;
  editor = refl;
  blank = refl;
  unsent = refl;
  unloaded = refl;
  here = refl;
}

untitled-hidden_example :
    is_shown
      (steps
        (steps (idle true) untitled)
        (save_pressed ∷ typed blank_form ∷ chosen (codes "a") ∷ [])).panel
    ≡ false
untitled-hidden_example =
    untitled-hidden (codes "a") (steps (idle true) untitled)
      (typed blank_form ∷ chosen (codes "a") ∷ []) untitled-IsUntitled (tt, (refl, tt))

abbrev under_way : Work
under_way = steps (idle true) (replacing ++ replace_pressed ∷ [])

under_way-sent : under_way.sent ≡ some (replace_file (codes "a") (codes "f1") scan)
unfolding steps step react select_doc detail_loaded detail_effects files_effect form_effect
    replace_detail_file
under_way-sent = refl

under_way-elsewhere : is_selected under_way.panel.selected_doc_id (codes "b") ≡ false
unfolding steps step react select_doc detail_loaded detail_effects files_effect form_effect
    replace_detail_file
under_way-elsewhere = refl

abbrev overtaking : List Event
overtaking =
    closed
    ∷ chosen (codes "b")
    ∷ loaded (inr (document (codes "b")))
    ∷ answered (updated (document (codes "a")))
    ∷ []

overtaken-answer_example :
    ((steps under_way overtaking).panel.selected_doc_id ≡ some (codes "b"))
    × ((steps under_way overtaking).panel.detail ≡ some (document (codes "a")))
overtaken-answer_example =
    overtaken-answer under_way (replace_file (codes "a") (codes "f1") scan) (document (codes "a"))
      (document (codes "b")) under_way-sent under_way-elsewhere
