-- ===== src/Backups/Files.antt =====
-- The backup files and the operations on them (components/admin/AdminBackupManager.tsx). One operation
-- runs at a time: `running` is its name, and the buttons are disabled while it is not empty.
pub mod Choices
use clip_to_doc_archive.Json.{decimal}
use clip_to_doc_archive.Prelude.{
  ℕ, ◌+◌, Bool, true, false, not, ◌&&◌, Option, none, some, List, [], ◌∷◌, ◌++◌, if◌then◌else◌,
  ◌==◌, nat_eq, list_eq, is_empty,
}
use clip_to_doc_archive.Text.{Text, codes}

pub data BackupKind : Type 0 where
  db objects config : BackupKind

pub data RestoreMode : Type 0 where
  preview apply : RestoreMode

pub record BackupFile : Type 0 where
  pub filename : Text
  pub size_bytes : ℕ
  pub created_at : Text
  pub sha256 : Option Text
  pub download_url : Text

-- What belongs to one kind of backup: its files, the one that is chosen, and the upload.
pub record Shelf : Type 0 where
  pub files : List BackupFile
  pub loading : Bool
  pub filename : Text
  pub confirm : Bool
  pub upload_file : Option Text
  pub upload_input_key : ℕ

pub record Backups : Type 0 where
  pub shelf : BackupKind → Shelf
  pub running : Text
  pub message : Text
  pub error : Text
  pub db_target : Text
  pub db_promote_to_active : Bool
  pub objects_replace_existing : Bool
  pub config_mode : RestoreMode
  pub config_preview_files : List Text
  pub config_preview_total : ℕ

abbrev pub kind_beq : BackupKind → BackupKind → Bool
kind_beq db db = true
kind_beq objects objects = true
kind_beq config config = true
kind_beq _ _ = false

abbrev pub kind_text : BackupKind → Text
kind_text db = codes "db"
kind_text objects = codes "objects"
kind_text config = codes "config"

abbrev pub kind_label : BackupKind → Text
kind_label db = codes "DB"
kind_label objects = codes "첨부파일"
kind_label config = codes "설정"

-- `{ ...prev, [kind]: … }`
abbrev pub on_shelf : BackupKind → (Shelf → Shelf) → Backups → Backups
on_shelf kind f b = record b { shelf = λ k. if kind_beq k kind then f (b.shelf k) else b.shelf k }

abbrev pub first_filename : List BackupFile → Text
first_filename [] = []
first_filename (file ∷ files) = file.filename

-- The effect that chooses a file where none is chosen.
abbrev pub choose_file : Shelf → Shelf
choose_file s = if is_empty s.filename then record s { filename = first_filename s.files } else s

abbrev pub load_kind : BackupKind → Backups → Backups
load_kind kind b = on_shelf kind (λ s. record s { loading = true }) b

-- The answer of `loadKind`; a failure only ends the loading.
abbrev pub filled_shelf : Option (List BackupFile) → Shelf → Shelf
filled_shelf none s = record s { loading = false }
filled_shelf (some files) s = choose_file (record s { files = files; loading = false })

unfoldable pub kind_loaded : BackupKind → Option (List BackupFile) → Backups → Backups
kind_loaded kind answer b = on_shelf kind (filled_shelf answer) b

pub data Operation : Type 0 where
  run_one : BackupKind → Operation
  run_all : Operation
  schedule_now : Operation
  delete_one : BackupKind → (filename : Text) → Operation
  delete_all : Operation
  restore : BackupKind → Operation
  upload_restore : BackupKind → Operation

abbrev pub running_text : Operation → Text
running_text (run_one kind) = kind_text kind
running_text run_all = codes "all"
running_text schedule_now = codes "schedule-now"
running_text (delete_one kind filename) = codes "delete-" ++ kind_text kind
running_text delete_all = codes "delete-all"
running_text (restore kind) = codes "restore-" ++ kind_text kind
running_text (upload_restore kind) = codes "upload-restore-" ++ kind_text kind

-- What the progress bar is begun with, if the operation has one: its label and its phase.
abbrev pub restore_phase : RestoreMode → Text
restore_phase preview = codes "설정 미리보기 생성 중..."
restore_phase apply = codes "설정 적용 중..."

abbrev pub progress_of : RestoreMode → Operation → Option (Text × Text)
progress_of mode (run_one kind) = some (kind_label kind ++ codes " 백업", codes "백업 생성 중...")
progress_of mode run_all = some (codes "전체 백업", codes "백업 생성 중...")
progress_of mode schedule_now = some (codes "자동 스케줄 백업", codes "전체 백업 실행 중...")
progress_of mode (delete_one kind filename) = none
progress_of mode delete_all = none
progress_of mode (restore db) = some (codes "DB 복구", codes "복구 적용 중...")
progress_of mode (restore objects) = some (codes "첨부파일 복구", codes "복구 적용 중...")
progress_of mode (restore config) = some (codes "설정 복구", restore_phase mode)
progress_of mode (upload_restore db) = some (codes "DB 업로드 복구", codes "파일 업로드 중...")
progress_of mode (upload_restore objects) = some (codes "첨부파일 업로드 복구", codes "파일 업로드 중...")
progress_of mode (upload_restore config) = some (codes "설정 업로드 복구", codes "파일 업로드 중...")

-- Whether its button is enabled: nothing runs, and what it restores is chosen.
abbrev pub is_enabled : Backups → Operation → Bool
is_enabled b (restore kind) = is_empty b.running && not (is_empty (b.shelf kind).filename)
is_enabled b (upload_restore kind) =
    is_empty b.running && (elim (b.shelf kind).upload_file [ none ↦ false | some file ↦ true ])
is_enabled b _ = is_empty b.running

abbrev pub asks : Operation → Bool
asks (delete_one kind filename) = true
asks delete_all = true
asks _ = false

-- Restoring the configuration clears what its last preview showed.
abbrev pub clear_preview : Operation → Backups → Backups
clear_preview (restore config) b = record b { config_preview_files = []; config_preview_total = 0 }
clear_preview (upload_restore config) b = record b {
  config_preview_files = [];
  config_preview_total = 0;
}
clear_preview _ b = b

-- A handler up to its request; what it asks has to be confirmed.
unfoldable pub start : (confirmed : Bool) → Operation → Backups → Backups × Bool
start confirmed op b =
    if asks op && not confirmed
    then (b, false)
    else (record (clear_preview op b) { running = running_text op; error = []; message = [] }, true)

-- The `finally` block.
abbrev pub stop : Backups → Backups
stop b = record b { running = [] }

abbrev pub fail : (message : Text) → Backups → Backups
fail message b = stop (record b { error = message })

abbrev pub list_of : BackupKind → List BackupFile → Backups → Backups
list_of kind files b = kind_loaded kind (some files) b

-- `chosen` is the name that the handler was made with; the name that is chosen by now goes if that
-- one was the deleted file's.
abbrev pub unchoose : (filename chosen : Text) → Shelf → Shelf
unchoose filename chosen s =
    choose_file (if chosen == filename then record s { filename = [] } else s)

-- Behind a deletion the list is read again; the message names the file as the answer does.
unfoldable pub deleted :
    BackupKind → (filename chosen answered : Text) → List BackupFile → Backups → Backups
unfolding kind_loaded
deleted kind filename chosen answered files b = stop (
    on_shelf kind (unchoose filename chosen)
      (list_of kind files (record b { message = codes "백업 삭제 완료: " ++ answered })))

-- Behind the deletion of all files the three lists are read again; `summary` counts them.
unfoldable pub all_deleted : (summary : Text) → (BackupKind → List BackupFile) → Backups → Backups
unfolding kind_loaded
all_deleted summary files b = stop (
    list_of config (files config) (
      list_of objects (files objects)
        (list_of db (files db) (record b { message = codes "전체 삭제 완료: " ++ summary }))))

-- Behind an upload the restored file is chosen, and the list is read again.
unfoldable pub upload_restored :
    BackupKind → (message filename : Text) → List BackupFile → Backups → Backups
unfolding kind_loaded
upload_restored kind message filename files b = stop (
    list_of kind files (
      on_shelf kind
        (λ s. record s {
          filename = filename;
          upload_file = none;
          upload_input_key = s.upload_input_key + 1;
        })
        (record b { message = message })))
