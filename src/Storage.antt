-- ===== src/Storage.antt =====
-- `window.localStorage` as the client uses it. A stored text is given by what `JSON.parse` makes of
-- it; `JSON.stringify` writes the text of a value. Access can throw (blocked or full storage).
use clip_to_doc_archive.Json.{Value}
use clip_to_doc_archive.Prelude.{
  ◌≡◌, refl, Bool, true, Option, none, some, List, [], ◌∷◌, arith, if◌then◌else◌, ◌==◌, nat_eq,
  list_beq_iff, list_eq,
}
use clip_to_doc_archive.Text.{Text}

pub data Stored : Type 0 where
  blank : Stored
  json : Value → Stored
  malformed : Stored

pub record LocalStorage : Type 0 where
  pub entries : List (Text × Stored)
  pub readable : Bool
  pub writable : Bool

-- What reading a key and parsing its text gives.
pub data Reading : Type 0 where
  nothing : Reading
  parsed : Value → Reading
  thrown : Reading

abbrev pub find : Text → List (Text × Stored) → Option Stored
find key [] = none
find key ((k, v) ∷ rest) = if k == key then some v else find key rest

abbrev pub put : Text → Stored → List (Text × Stored) → List (Text × Stored)
put key v [] = (key, v) ∷ []
put key v ((k, w) ∷ rest) = if k == key then (key, v) ∷ rest else (k, w) ∷ put key v rest

abbrev pub reading : Option Stored → Reading
reading none = nothing
reading (some blank) = nothing
reading (some (json v)) = parsed v
reading (some malformed) = thrown

-- `const raw = getItem(key); if (!raw) …; JSON.parse(raw)`
unfoldable pub read_json : Text → LocalStorage → Reading
read_json key s = if s.readable then reading (find key s.entries) else thrown

-- `setItem(key, JSON.stringify(v))`; a write that throws changes nothing.
unfoldable pub write_json : Text → Value → LocalStorage → LocalStorage
write_json key v s = if s.writable then record s { entries = put key (json v) s.entries } else s

find-put :
    (key j : Text) (v : Stored) (l : List (Text × Stored))
    → find j (put key v l) ≡ (if key == j then some v else find j l)
find-put key j v [] = refl
find-put key j v ((k, w) ∷ rest) =
    ground (arith, list_beq_iff k key, list_beq_iff key j, list_beq_iff k j, find-put key j v rest)

-- What was written is read, by every key.
pub read_json-write_json :
    (key j : Text) (v : Value) (s : LocalStorage)
    → s.readable ≡ true
    → s.writable ≡ true
    → read_json j (write_json key v s) ≡ (if key == j then parsed v else read_json j s)
unfolding read_json write_json
read_json-write_json key j v s r w = ground (arith, find-put key j (json v) s.entries)
