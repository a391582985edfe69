-- ===== src/Backups/Progress.antt =====
-- The progress bar of the backup page (components/admin/AdminBackupManager.tsx): an interval moves it,
-- a finished operation stops it, and a timeout takes it away. `share` is
-- `Math.round((percent / 100) * 70)`, and percentages are whole numbers.
pub mod Bounds
use clip_to_doc_archive.Prelude.{
  ℕ, ◌+◌, min, max, Bool, true, false, not, ◌&&◌, Option, none, some, List, [], ◌∷◌, ◌++◌, leb,
  if◌then◌else◌, is_empty,
}
use clip_to_doc_archive.Text.{Text, codes}

pub record OperationProgress : Type 0 where
  pub label : Text
  pub phase : Text
  pub percent : ℕ
  pub failed : Bool

-- The bar with its two timers: the interval is on, and the timeout has so many milliseconds.
pub record Meter : Type 0 where
  pub progress : Option OperationProgress
  pub ticking : Bool
  pub hiding : Option ℕ

abbrev pub empty_meter : Meter
empty_meter = record { progress = none; ticking = false; hiding = none }

abbrev pub clear_progress_timers : Meter → Meter
clear_progress_timers m = record m { ticking = false; hiding = none }

unfoldable pub begin_progress : (label phase : Text) → Meter → Meter
begin_progress label phase m = record {
  progress = some (record { label = label; phase = phase; percent = 8; failed = false });
  ticking = true;
  hiding = none;
}

-- `setProgress((prev) => prev ? … : prev)`
abbrev pub on_progress :
    (OperationProgress → OperationProgress) → Option OperationProgress → Option OperationProgress
on_progress f none = none
on_progress f (some p) = some (f p)

abbrev pub advanced : OperationProgress → OperationProgress
advanced p = record p { percent = if leb 92 p.percent then p.percent else p.percent + 2 }

-- The interval, which is on or was cleared.
unfoldable pub tick : Meter → Meter
tick m = if m.ticking then record m { progress = on_progress advanced m.progress } else m

unfoldable pub set_progress_phase : Text → Meter → Meter
set_progress_phase phase m = record m {
  progress = on_progress (λ p. record p { phase = phase }) m.progress;
}

-- A phase that is empty counts as none.
unfoldable pub set_progress_percent : (percent : ℕ) → (phase : Text) → Meter → Meter
set_progress_percent percent phase m = record m {
  progress =
      on_progress
        (λ p. record p {
          percent = min 99 percent;
          phase = if is_empty phase then p.phase else phase;
        })
        m.progress;
}

unfoldable pub finish_progress : (ok : Bool) → Text → Meter → Meter
finish_progress ok phase m = record {
  progress =
      on_progress (λ p. record p { phase = phase; percent = 100; failed = not ok }) m.progress;
  ticking = false;
  hiding = some (if ok then 1200 else 3000);
}

-- The timeout, which is on or was cleared.
unfoldable pub hide : Meter → Meter
hide m = elim m.hiding [ none ↦ m | some ms ↦ record m { progress = none; hiding = none } ]

-- The callback of an upload; `switched` says that the server's phase has begun.
unfoldable pub upload_progress :
    (ℕ → ℕ) → (percent_text : Text) → (percent : ℕ) → Meter × Bool → Meter × Bool
unfolding set_progress_percent set_progress_phase
upload_progress share percent_text percent (m, switched) =
    let scaled = max 8 (min 70 (share percent)) in
    let moved =
      set_progress_percent scaled (codes "파일 업로드 중... " ++ (percent_text ++ codes "%")) m in
    if leb 100 percent && not switched
    then (set_progress_phase (codes "서버 복구 적용 중...") moved, true)
    else (moved, switched)

-- What happens to the bar.
pub data Beat : Type 0 where
  began : (label phase : Text) → Beat
  ticked : Beat
  uploaded : (percent_text : Text) → (percent : ℕ) → Beat
  answered : Beat
  finished : (ok : Bool) → Text → Beat
  hidden : Beat
  left : Beat

unfoldable pub beat : (ℕ → ℕ) → Meter × Bool → Beat → Meter × Bool
unfolding begin_progress tick set_progress_phase set_progress_percent finish_progress hide
    upload_progress
beat share (m, switched) (began label phase) = (begin_progress label phase m, false)
beat share (m, switched) ticked = (tick m, switched)
beat share s (uploaded percent_text percent) = upload_progress share percent_text percent s
beat share (m, switched) answered = (
  set_progress_percent 90 [] (if switched then m else set_progress_phase (codes "서버 복구 적용 중...") m),
  switched,
)
beat share (m, switched) (finished ok phase) = (finish_progress ok phase m, switched)
beat share (m, switched) hidden = (hide m, switched)
beat share (m, switched) left = (clear_progress_timers m, switched)

unfoldable pub beats : (ℕ → ℕ) → Meter × Bool → List Beat → Meter × Bool
unfolding beat
beats share s [] = s
beats share s (b ∷ rest) = beats share (beat share s b) rest
