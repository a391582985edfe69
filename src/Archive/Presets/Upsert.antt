-- ===== src/Archive/Presets/Upsert.antt =====
-- Laws of saving a view under a name (`upsertArchiveViewPreset` in lib/archive-view-presets.ts).
use mathlib.Core.Option.{some-injective}
use clip_to_doc_archive.Sorting.{sort_by}
use clip_to_doc_archive.Sorting.Keys.{
  find_key, IsFree, KeysDiffer, IsFree-of_find, KeysDiffer-sort_by, find-sort_by,
}
use clip_to_doc_archive.Archive.Presets.{
  PresetPayload, ViewPreset, normalize_payload, payload_value, newer_first, find_name, update_if,
  upsert_view_preset,
}
use clip_to_doc_archive.Prelude.{
  subst, ◌≡◌, refl, sym, ap, ◌∙◌, inl, inr, true, false, none, some, List, [], ◌∷◌, map, arith,
  if◌then◌else◌, Bool-cases, Option-cases, ◌==◌, nat_eq, list_beq_iff, list_eq, is_empty,
}
use clip_to_doc_archive.Text.{Text, trim}

abbrev id_of : ViewPreset → Text
id_of p = p.id

abbrev name_of : ViewPreset → Text
name_of p = p.name

-- Each identifier and each name stands once.
pub record IsKept (presets : List ViewPreset) : Type 0 where
  pub ids : KeysDiffer id_of presets
  pub names : KeysDiffer name_of presets

find_name-find_key : (n : Text) (ps : List ViewPreset) → find_name n ps ≡ find_key name_of n ps
find_name-find_key n [] = refl
find_name-find_key n (p ∷ ps) = ground (arith, find_name-find_key n ps)

module _ (id : Text) (payload : PresetPayload) (now : Text) where
  map_update_of_IsFree :
      (ps : List ViewPreset) → IsFree id_of ps id → map (update_if id payload now) ps ≡ ps
  map_update_of_IsFree [] f = refl
  map_update_of_IsFree (p ∷ ps) f = rw f.0 (ap (◌∷◌ p) (map_update_of_IsFree ps f.1))

  IsFree-map_update_id :
      (ps : List ViewPreset) (k : Text)
      → IsFree id_of ps k
      → IsFree id_of (map (update_if id payload now) ps) k
  IsFree-map_update_id [] k f = tt
  IsFree-map_update_id (p ∷ ps) k f = (ground arith, IsFree-map_update_id ps k f.1)

  IsFree-map_update_name :
      (ps : List ViewPreset) (k : Text)
      → IsFree name_of ps k
      → IsFree name_of (map (update_if id payload now) ps) k
  IsFree-map_update_name [] k f = tt
  IsFree-map_update_name (p ∷ ps) k f = (ground arith, IsFree-map_update_name ps k f.1)

  same_keys :
      (p : ViewPreset)
      → ((update_if id payload now p).id ≡ p.id) × ((update_if id payload now p).name ≡ p.name)
  same_keys p = ground arith

  map_update-IsKept :
      (ps : List ViewPreset) → IsKept ps → IsKept (map (update_if id payload now) ps)
  map_update-IsKept [] k = record { ids = tt; names = tt }
  map_update-IsKept (p ∷ ps) k =
      let rest = map_update-IsKept ps (record { ids = k.ids.1; names = k.names.1 }) in
      let (same_id, same_name) = same_keys p in
      record {
        ids = (rw same_id (IsFree-map_update_id ps p.id k.ids.0), rest.ids);
        names = (rw same_name (IsFree-map_update_name ps p.name k.names.0), rest.names);
      }

  found_name :
      (n : Text) (ps : List ViewPreset) (q : ViewPreset) → find_name n ps ≡ some q → q.name ≡ n
  found_name n [] q h = cc
  found_name n (p ∷ ps) q h = ground (arith, list_beq_iff p.name n, found_name n ps q)

  found_id :
      (n k : Text) (ps : List ViewPreset) (q : ViewPreset)
      → IsFree id_of ps k
      → find_name n ps ≡ some q
      → (q.id == k) ≡ false
  found_id n k [] q f h = cc
  found_id n k (p ∷ ps) q f h = ground (arith, found_id n k ps q f.1)

  found_here :
      (n : Text) (p : ViewPreset) (ps : List ViewPreset) (q : ViewPreset)
      → (p.name == n) ≡ true
      → find_name n (p ∷ ps) ≡ some q
      → p ≡ q
  found_here n p ps q here h = some-injective p q (rw here at h)

  found_there :
      (n : Text) (p : ViewPreset) (ps : List ViewPreset) (q : ViewPreset)
      → (p.name == n) ≡ false
      → find_name n (p ∷ ps) ≡ some q
      → find_name n ps ≡ some q
  found_there n p ps q there h = rw there at h

  update_other :
      (p q : ViewPreset) → q.id ≡ id → (q.id == p.id) ≡ false → update_if id payload now p ≡ p
  update_other p q e other = ground (arith, list_beq_iff p.id id, list_beq_iff q.id p.id)

  abbrev updated : ViewPreset → ViewPreset
  updated q = record q { payload = payload; updated_at = now }

  find_renamed :
      (n m : Text) (p : ViewPreset) (ps : List ViewPreset)
      → p.name ≡ n
      → find_name m (updated p ∷ ps) ≡ (if n == m then some (updated p) else find_name m (p ∷ ps))
  find_renamed n m p ps e = ground (arith, list_beq_iff p.name m, list_beq_iff n m)

  find_updated :
      (n m : Text) (p : ViewPreset) (ps : List ViewPreset) (q : ViewPreset)
      → (p.name == n) ≡ true
      → p.id ≡ id
      → p ≡ q
      → find_name m (update_if id payload now p ∷ ps)
        ≡ (if n == m then some (updated q) else find_name m (p ∷ ps))
  find_updated n m p ps q here mine same =
      let u : update_if id payload now p ≡ updated p = rw ((list_beq_iff p.id id).1 mine) in
      let n' : p.name ≡ n = (list_beq_iff p.name n).0 here in
      ap (λ r. find_name m (r ∷ ps)) u
      ∙ find_renamed n m p ps n'
      ∙ ap (λ r. if n == m then some (updated r) else find_name m (p ∷ ps)) same

  find_skipped :
      (n m : Text) (p : ViewPreset) (ps : List ViewPreset) (q : ViewPreset)
      → (p.name == n) ≡ false
      → find_name m (map (update_if id payload now) ps)
        ≡ (if n == m then some (updated q) else find_name m ps)
      → find_name m (p ∷ map (update_if id payload now) ps)
        ≡ (if n == m then some (updated q) else find_name m (p ∷ ps))
  find_skipped n m p ps q there ih = elim (Bool-cases (p.name == m)) [
    | inl hit ↦ ground (arith, list_beq_iff p.name m, list_beq_iff n m, list_beq_iff p.name n)
    | inr miss ↦ rw miss ih
  ]

  find-map_update :
      (n m : Text) (ps : List ViewPreset) (q : ViewPreset)
      → IsKept ps
      → find_name n ps ≡ some q
      → q.id ≡ id
      → find_name m (map (update_if id payload now) ps) ≡ (
          if n == m
          then some (record q { payload = payload; updated_at = now })
          else find_name m ps)
  find-map_update n m [] q k h e = cc
  find-map_update n m (p ∷ ps) q k h e = elim (Bool-cases (p.name == n)) [
    | inl here ↦
        let same : p ≡ q = found_here n p ps q here h in
        let mine : p.id ≡ id = ap id_of same ∙ e in
        let rest = map_update_of_IsFree ps (subst (IsFree id_of ps) mine k.ids.0) in
        ap (λ l. find_name m (update_if id payload now p ∷ l)) rest
        ∙ find_updated n m p ps q here mine same
    | inr there ↦
        let later = found_there n p ps q there h in
        let other = found_id n p.id ps q k.ids.0 later in
        ap (λ u. find_name m (u ∷ map (update_if id payload now) ps)) (update_other p q e other)
        ∙ find_skipped n m p ps q there
            (find-map_update n m ps q (record { ids = k.ids.1; names = k.names.1 }) later e)
  ]

-- The view that `upsertArchiveViewPreset` leaves under the name.
abbrev pub saved : (now id : Text) → List ViewPreset → Text → PresetPayload → ViewPreset
saved now id presets name payload = elim (find_name (trim name) presets) [
  | some q ↦ record q { payload = normalize_payload (payload_value payload); updated_at = now }
  | none ↦ record {
    id = id;
    name = trim name;
    payload = normalize_payload (payload_value payload);
    created_at = now;
    updated_at = now;
  }
]

module _ (now id : Text) (presets : List ViewPreset) (name : Text) (payload : PresetPayload)
    (kept : IsKept presets) (named : is_empty (trim name) ≡ false) where
  abbrev stored_payload : PresetPayload
  stored_payload = normalize_payload (payload_value payload)

  find-sorted_update :
      (m : Text) (q : ViewPreset)
      → find_name (trim name) presets ≡ some q
      → find_name m (sort_by newer_first (map (update_if q.id stored_payload now) presets)) ≡ (
          if trim name == m
          then some (record q { payload = stored_payload; updated_at = now })
          else find_name m presets)
  find-sorted_update m q h =
      let updates = map (update_if q.id stored_payload now) presets in
      let k = map_update-IsKept q.id stored_payload now presets kept in
      find_name-find_key m (sort_by newer_first updates)
      ∙ find-sort_by name_of newer_first updates m k.names
      ∙ sym (find_name-find_key m updates)
      ∙ find-map_update q.id stored_payload now (trim name) m presets q kept h refl

  -- Where the saved views have distinct names and identifiers and the trimmed name is not empty:
  -- after saving under the name, the trimmed name finds the old view with the normalised payload
  -- and the new time, or a new view with them, and every other name finds what it found before.
  pub find_name-upsert :
      (m : Text)
      → find_name m (upsert_view_preset now id presets name payload)
        ≡ (if trim name == m then some (saved now id presets name payload) else find_name m presets)
  unfolding upsert_view_preset
  find_name-upsert m = elim (Option-cases (find_name (trim name) presets)) [
    | inl missing ↦ rw (named, missing) (rw (missing, saved))
    | inr (q, found) ↦ rw (named, found) (rw (found, saved) (find-sorted_update m q found))
  ]

  -- Saving a view under a name that is not blank keeps names and identifiers distinct, where they
  -- were distinct and the new identifier is not in use.
  upsert-IsKept : IsFree id_of presets id → IsKept (upsert_view_preset now id presets name payload)
  unfolding upsert_view_preset
  upsert-IsKept fresh = elim (Option-cases (find_name (trim name) presets)) [
    | inl missing ↦
        let free =
          IsFree-of_find name_of presets (trim name)
            (sym (find_name-find_key (trim name) presets) ∙ missing) in
        rw (named, missing) (record { ids = (fresh, kept.ids); names = (free, kept.names) })
    | inr (q, found) ↦
        let k = map_update-IsKept q.id stored_payload now presets kept in
        rw (named, found)
          (record {
            ids = KeysDiffer-sort_by id_of newer_first _ k.ids;
            names = KeysDiffer-sort_by name_of newer_first _ k.names;
          })
  ]
