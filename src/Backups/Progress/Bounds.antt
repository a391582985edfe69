-- ===== src/Backups/Progress/Bounds.antt =====
-- What the progress bar shows (components/admin/AdminBackupManager.tsx).
use clip_to_doc_archive.Backups.Progress.{
  OperationProgress, Meter, empty_meter, begin_progress, on_progress, advanced, tick,
  set_progress_phase, set_progress_percent, finish_progress, hide, upload_progress, Beat, began,
  ticked, uploaded, answered, finished, hidden, left, beat, beats,
}
use clip_to_doc_archive.Prelude.{
  subst, ℕ, ◌≤◌, min, max, inl, inr, Bool, true, false, not, ◌&&◌, Option, none, some, List, [],
  ◌∷◌, ◌++◌, arith, leb, if◌then◌else◌, Bool-cases, Option-cases, nat_eq, list_eq, is_empty,
}
use clip_to_doc_archive.Text.{Text, codes}

-- A bar that is shown stands between 8 and 100, and at 100 its interval is off.
abbrev pub InBounds : Bool → Option OperationProgress → Type 0
InBounds ticking none = Unit
InBounds ticking (some p) =
    (8 ≤ p.percent) × (p.percent ≤ 100) × ((if ticking then p.percent else 0) ≤ 99)

moved :
    (ticking : Bool) (o : Option OperationProgress)
    → InBounds ticking o
    → InBounds ticking (on_progress advanced o)
moved ticking none h = tt
moved true (some p) h = ground arith
moved false (some p) h = ground arith

phased :
    (phase : Text) (ticking : Bool) (o : Option OperationProgress)
    → InBounds ticking o
    → InBounds ticking (on_progress (λ p. record p { phase = phase }) o)
phased phase ticking none h = tt
phased phase ticking (some p) h = h

-- A bar that is set by an upload or by an answer stands between 8 and 99.
placed :
    (percent : ℕ) (phase : Text) (m : Meter) (o : Option OperationProgress)
    → 8 ≤ percent
    → InBounds m.ticking (
        on_progress
          (λ p. record p {
            percent = min 99 percent;
            phase = if is_empty phase then p.phase else phase;
          })
          o)
placed percent phase m none h = tt
placed percent phase m (some p) h = elim (Bool-cases m.ticking) [
  | inl on ↦ rw on (omega arith, omega arith, omega arith)
  | inr off ↦ rw off (omega arith, omega arith, omega arith)
]

ended :
    (ok : Bool) (phase : Text) (o : Option OperationProgress)
    → InBounds false
        (on_progress (λ p. record p { phase = phase; percent = 100; failed = not ok }) o)
ended ok phase none = tt
ended ok phase (some p) = (omega arith, omega arith, omega arith)

stopped : (ticking : Bool) (o : Option OperationProgress) → InBounds ticking o → InBounds false o
stopped ticking none h = tt
stopped ticking (some p) h = (h.0, h.1, omega arith)

abbrev IsBounded : Meter → Type 0
IsBounded m = InBounds m.ticking m.progress

hide-IsBounded : (m : Meter) → IsBounded m → IsBounded (hide m)
unfolding hide
hide-IsBounded m h = elim (Option-cases m.hiding) [ inl off ↦ rw off h | inr (ms, on) ↦ rw on tt ]

tick-IsBounded : (m : Meter) → IsBounded m → IsBounded (tick m)
unfolding tick
tick-IsBounded m h = elim (Bool-cases m.ticking) [
  | inl on ↦ rw on (moved true m.progress (subst (λ t. InBounds t m.progress) on h))
  | inr off ↦ rw off (subst (λ t. InBounds t m.progress) off h)
]

phase-IsBounded : (phase : Text) (m : Meter) → IsBounded m → IsBounded (set_progress_phase phase m)
unfolding set_progress_phase
phase-IsBounded phase m h = phased phase m.ticking m.progress h

percent-IsBounded :
    (percent : ℕ) (phase : Text) (m : Meter)
    → 8 ≤ percent
    → IsBounded (set_progress_percent percent phase m)
unfolding set_progress_percent
percent-IsBounded percent phase m h = placed percent phase m m.progress h

module _ (share : ℕ → ℕ) where
  upload-IsBounded :
      (text : Text) (percent : ℕ) (s : Meter × Bool)
      → IsBounded (upload_progress share text percent s).0
  unfolding upload_progress
  upload-IsBounded text percent (m, switched) =
      let phase = codes "파일 업로드 중... " ++ (text ++ codes "%") in
      let scaled = max 8 (min 70 (share percent)) in
      let moved' = percent-IsBounded scaled phase m (omega arith) in
      elim (Bool-cases (leb 100 percent && not switched)) [
        | inl first ↦
            rw first
              (phase-IsBounded (codes "서버 복구 적용 중...") (set_progress_percent scaled phase m) moved')
        | inr later ↦ rw later moved'
      ]

  beat-IsBounded : (b : Beat) (s : Meter × Bool) → IsBounded s.0 → IsBounded (beat share s b).0
  unfolding beat begin_progress finish_progress
  beat-IsBounded (began label phase) (m, switched) h = (omega arith, omega arith, omega arith)
  beat-IsBounded ticked (m, switched) h = tick-IsBounded m h
  beat-IsBounded (uploaded text percent) s h = upload-IsBounded text percent s
  beat-IsBounded answered (m, switched) h =
      percent-IsBounded 90 [] (if switched then m else set_progress_phase (codes "서버 복구 적용 중...") m)
        (omega arith)
  beat-IsBounded (finished ok phase) (m, switched) h = ended ok phase m.progress
  beat-IsBounded hidden (m, switched) h = hide-IsBounded m h
  beat-IsBounded left (m, switched) h = stopped m.ticking m.progress h

  beats-IsBounded :
      (rest : List Beat) (s : Meter × Bool) → IsBounded s.0 → IsBounded (beats share s rest).0
  unfolding beats
  beats-IsBounded [] s h = h
  beats-IsBounded (b ∷ rest) s h = beats-IsBounded rest (beat share s b) (beat-IsBounded b s h)

  -- Whatever uploads, answers, ends and timers come, in any order: a progress bar that is shown
  -- stands between 8 and 100, and below 100 while its interval is on.
  pub beats-InBounds :
      (rest : List Beat)
      → InBounds
          (beats share (empty_meter, false) rest).0.ticking
          (beats share (empty_meter, false) rest).0.progress
  beats-InBounds rest = beats-IsBounded rest (empty_meter, false) tt
