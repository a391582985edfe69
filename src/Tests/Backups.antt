-- ===== src/Tests/Backups.antt =====
-- The backup page at concrete inputs.
use clip_to_doc_archive.Backups.Files.{
  db, objects, BackupFile, Shelf, Backups, apply, restore, is_enabled, deleted, all_deleted,
}
use clip_to_doc_archive.Backups.Files.Choices.{
  IsChosen, IsNamed, is_let_go, without, deleted-IsChosen, all_deleted-stale,
}
use clip_to_doc_archive.Backups.Progress.{
  Beat, began, ticked, uploaded, answered, finished, beats, empty_meter,
}
use clip_to_doc_archive.Backups.Progress.Bounds.{InBounds, beats-InBounds}
use clip_to_doc_archive.Backups.Schedule.{Schedule}
use clip_to_doc_archive.Prelude.{
  ℕ, ◌*◌, ◌/◌, ◌≡◌, ◌↔◌, refl, true, false, none, some, List, [], ◌∷◌, nat_eq, list_eq,
}
use clip_to_doc_archive.Text.{Text, codes}

abbrev dump : Text → BackupFile
dump name = record {
  filename = name;
  size_bytes = 2048;
  created_at = codes "2025-08-01";
  sha256 = none;
  download_url = [];
}

abbrev two_dumps : Shelf
two_dumps = record {
  files = dump (codes "a.dump") ∷ dump (codes "b.dump") ∷ [];
  loading = false;
  filename = codes "a.dump";
  confirm = true;
  upload_file = none;
  upload_input_key = 0;
}

abbrev page : Backups
page = record {
  shelf = λ kind. two_dumps;
  running = [];
  message = [];
  error = [];
  db_target = codes "archive_restore";
  db_promote_to_active = false;
  objects_replace_existing = false;
  config_mode = apply;
  config_preview_files = [];
  config_preview_total = 0;
}

two_dumps-IsNamed : IsNamed two_dumps.files
two_dumps-IsNamed = (refl, (refl, tt))

-- The file that is deleted was chosen after the press, when the other one was.
deleted-IsChosen_example :
    IsChosen (
      (deleted db
          (codes "a.dump")
          (codes "b.dump")
          (codes "a.dump")
          (without (codes "a.dump") two_dumps.files)
          page).shelf
        db)
    ↔ (is_let_go (codes "a.dump") (codes "b.dump") (codes "a.dump") ≡ true)
deleted-IsChosen_example =
    deleted-IsChosen db (codes "a.dump") (codes "b.dump") (codes "a.dump") page two_dumps-IsNamed
      refl refl

all_deleted-stale_example :
    ((all_deleted (codes "2") (λ k. []) page).shelf objects).files ≡ []
    × (((all_deleted (codes "2") (λ k. []) page).shelf objects).filename ≡ codes "a.dump")
    × (is_enabled (all_deleted (codes "2") (λ k. []) page) (restore objects) ≡ true)
all_deleted-stale_example = all_deleted-stale objects (codes "2") page refl

abbrev seventy : ℕ → ℕ
seventy percent = percent * 70 / 100

abbrev restoring : List Beat
restoring =
    began (codes "DB") (codes "start")
    ∷ ticked
    ∷ uploaded (codes "100") 100
    ∷ answered
    ∷ ticked
    ∷ finished true (codes "done")
    ∷ []

beats-InBounds_example :
    InBounds
      (beats seventy (empty_meter, false) restoring).0.ticking
      (beats seventy (empty_meter, false) restoring).0.progress
beats-InBounds_example = beats-InBounds seventy restoring

abbrev weekly : Schedule
weekly = record {
  loading = false;
  saving = false;
  enabled = true;
  interval_days = some 90;
  run_time = codes " 03:30 ";
  target_dir = codes "  ";
  timezone = codes "Asia/Seoul";
  export_root = codes "/backup-export/";
  last_run_at = none;
  last_status = none;
  last_error = none;
  last_output_dir = none;
}
