-- ===== src/Backups/Files/Choices.antt =====
-- The backup file that is chosen to be restored (components/admin/AdminBackupManager.tsx).
use clip_to_doc_archive.Backups.Files.{
  BackupKind, db, objects, config, BackupFile, Shelf, Backups, kind_beq, first_filename,
  choose_file, filled_shelf, kind_loaded, restore, is_enabled, unchoose, deleted, all_deleted,
}
use clip_to_doc_archive.Prelude.{
  ◌≡◌, ◌↔◌, ◌||◌, Bool, refl, inl, inr, true, false, not, some, List, [], ◌∷◌, map, arith,
  if◌then◌else◌, Bool-cases, ◌==◌, nat_eq, list_beq_iff, list_eq, is_empty, keep_if, All, contains,
  contains_self,
}
use clip_to_doc_archive.Text.{Text}

abbrev pub filenames : List BackupFile → List Text
filenames = map (λ file. file.filename)

-- The chosen file is one of the files, or none is chosen and there is none.
abbrev pub IsChosen : Shelf → Type 0
IsChosen s =
    (if is_empty s.filename then is_empty s.files else contains (filenames s.files) s.filename)
    ≡ true

-- The files have names.
abbrev pub IsNamed : List BackupFile → Type 0
IsNamed files = All (λ file. is_empty file.filename ≡ false) files

choose_file-IsChosen :
    (s : Shelf)
    → IsNamed s.files
    → (if is_empty s.filename then true else contains (filenames s.files) s.filename) ≡ true
    → IsChosen (choose_file s)
choose_file-IsChosen s n h = elim (Bool-cases (is_empty s.filename)) [
  | inl blank ↦ rw blank (first s.files n)
  | inr filled ↦ rw filled (rw filled (rw filled at h))
]
  where
    first :
        (files : List BackupFile)
        → IsNamed files
        → (if is_empty (first_filename files)
            then is_empty files
            else contains (filenames files) (first_filename files))
          ≡ true
    first [] n = refl
    first (file ∷ files) n = rw n.0 (contains_self file.filename (filenames files))

-- What the list still has when one file is gone.
abbrev pub without : Text → List BackupFile → List BackupFile
without filename files = keep_if (λ file. not (file.filename == filename)) files

without-contains :
    (filename : Text) (files : List BackupFile) (other : Text)
    → (other == filename) ≡ false
    → contains (filenames (without filename files)) other ≡ contains (filenames files) other
without-contains filename [] other h = refl
without-contains filename (file ∷ files) other h =
    let rest = without-contains filename files other h in
    elim (Bool-cases (file.filename == filename)) [
      | inl gone ↦
          rw (gone, rest)
            (ground (
              arith,
              list_beq_iff other file.filename,
              list_beq_iff file.filename filename,
              list_beq_iff other filename,
            ))
      | inr kept ↦ rw (kept, rest) refl
    ]

without-IsNamed :
    (filename : Text) (files : List BackupFile) → IsNamed files → IsNamed (without filename files)
without-IsNamed filename [] n = tt
without-IsNamed filename (file ∷ files) n =
    let rest = without-IsNamed filename files n.1 in
    elim (Bool-cases (file.filename == filename)) [
      | inl gone ↦ rw gone rest
      | inr kept ↦ rw kept (n.0, rest)
    ]

without-gone :
    (filename : Text) (files : List BackupFile)
    → contains (filenames (without filename files)) filename ≡ false
without-gone filename [] = refl
without-gone filename (file ∷ files) =
    let rest = without-gone filename files in
    elim (Bool-cases (file.filename == filename)) [
      | inl gone ↦ rw gone rest
      | inr kept ↦ rw kept (
          ground
            (arith, rest, list_beq_iff file.filename filename, list_beq_iff filename file.filename))
    ]

-- The shelf behind the deletion of a file: its list was read without the file.
abbrev emptied : (filename chosen : Text) → Shelf → Shelf
emptied filename chosen s =
    unchoose filename chosen (filled_shelf (some (without filename s.files)) s)

-- The file is let go of where it was chosen at the press, and is harmless where it is not chosen.
abbrev pub is_let_go : (filename chosen now : Text) → Bool
is_let_go filename chosen now = chosen == filename || not (now == filename)

module _ (filename chosen : Text) (s : Shelf) where
  emptied-IsChosen :
      IsNamed s.files
      → is_empty s.filename ≡ false
      → contains (filenames s.files) s.filename ≡ true
      → is_let_go filename chosen s.filename ≡ true
      → IsChosen (emptied filename chosen s)
  emptied-IsChosen n filled listed let_go =
      let q : Shelf = record s { files = without filename s.files; loading = false } in
      let named = without-IsNamed filename s.files n in
      elim (Bool-cases (chosen == filename)) [
        | inl old ↦ rw (filled, old) (choose_file-IsChosen (record q { filename = [] }) named refl)
        | inr other ↦
            let elsewhere : (s.filename == filename) ≡ false = ground (arith, let_go, other) in
            rw (filled, other)
              (choose_file-IsChosen q named
                (rw (filled, without-contains filename s.files s.filename elsewhere) listed))
      ]

  emptied-let_go :
      is_empty s.filename ≡ false
      → IsChosen (emptied filename chosen s)
      → is_let_go filename chosen s.filename ≡ true
  emptied-let_go filled c = elim (Bool-cases (chosen == filename)) [
    | inl old ↦ rw old refl
    | inr other ↦ elim (Bool-cases (s.filename == filename)) [
      | inr elsewhere ↦ rw (other, elsewhere) refl
      | inl same ↦
          let e = (list_beq_iff s.filename filename).0 same in
          let gone : contains (filenames (without filename s.files)) s.filename ≡ false =
            rw e (without-gone filename s.files) in
          let there : contains (filenames (without filename s.files)) s.filename ≡ true =
            (let c' = rw (filled, other) at c in let c'' = rw filled at c' in rw filled at c'') in
          absurd (ground (arith, gone, there))
    ]
  ]

-- Where one of a shelf's files, which have names, is chosen when the deletion of a file is
-- answered and the list is read again without it: the chosen file is one of those that are left,
-- or there is none, exactly if the deleted file was chosen at the press or is not chosen by now.
pub deleted-IsChosen :
    (kind : BackupKind) (filename chosen answered : Text) (b : Backups)
    → IsNamed (b.shelf kind).files
    → is_empty (b.shelf kind).filename ≡ false
    → IsChosen (b.shelf kind)
    → IsChosen (
        (deleted kind filename chosen answered (without filename (b.shelf kind).files) b).shelf
          kind)
      ↔ (is_let_go filename chosen (b.shelf kind).filename ≡ true)
unfolding deleted kind_loaded
deleted-IsChosen kind filename chosen answered b n filled h =
    let same : kind_beq kind kind ≡ true = ground arith in
    let listed : contains (filenames (b.shelf kind).files) (b.shelf kind).filename ≡ true =
      rw filled at h in
    rw same (
      emptied-let_go filename chosen (b.shelf kind) filled,
      emptied-IsChosen filename chosen (b.shelf kind) n filled listed,
    )

-- After all backup files were deleted and the empty lists were read, a file that was chosen stays
-- chosen, and its restoring is enabled.
pub all_deleted-stale :
    (kind : BackupKind) (summary : Text) (b : Backups)
    → is_empty (b.shelf kind).filename ≡ false
    → let q = all_deleted summary (λ k. []) b in
      ((q.shelf kind).files ≡ [])
      × ((q.shelf kind).filename ≡ (b.shelf kind).filename)
      × (is_enabled q (restore kind) ≡ true)
unfolding all_deleted kind_loaded
all_deleted-stale db summary b filled = rw filled (refl, refl, rw filled refl)
all_deleted-stale objects summary b filled = rw filled (refl, refl, rw filled refl)
all_deleted-stale config summary b filled = rw filled (refl, refl, rw filled refl)
