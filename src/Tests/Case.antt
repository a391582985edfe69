-- ===== src/Tests/Case.antt =====
-- A case map for the tests: `toLowerCase` on ASCII letters.
use clip_to_doc_archive.Prelude.{
  ap₂, ◌+◌, refl, ◌&&◌, [], ◌∷◌, map, arith, leb, if◌then◌else◌, nat_eq, list_eq,
}
use clip_to_doc_archive.Text.{KeepsSmall, Text}

abbrev pub ascii_lower : Text → Text
ascii_lower = map (λ c. if leb b'A' c && leb c b'Z' then c + 32 else c)

pub ascii_lower-KeepsSmall : KeepsSmall ascii_lower
ascii_lower-KeepsSmall [] h = refl
ascii_lower-KeepsSmall (c ∷ s) h = ap₂ ◌∷◌ (ground arith) (ascii_lower-KeepsSmall s (ground arith))
