-- ===== src/Text/Order.antt =====
-- Laws of the order of strings.
use clip_to_doc_archive.Prelude.{◌≡◌, refl, true, false, [], ◌∷◌, arith, nat_eq, list_eq}
use clip_to_doc_archive.Text.{text_ltb, Text}

pub text_ltb_asym : (a b : Text) → text_ltb a b ≡ true → text_ltb b a ≡ false
unfolding text_ltb
text_ltb_asym [] [] h = cc
text_ltb_asym [] (d ∷ t) h = refl
text_ltb_asym (c ∷ s) [] h = cc
text_ltb_asym (c ∷ s) (d ∷ t) h = ground (arith, text_ltb_asym s t)

pub text_ltb_irrefl : (a : Text) → text_ltb a a ≡ false
unfolding text_ltb
text_ltb_irrefl [] = refl
text_ltb_irrefl (c ∷ s) = ground (arith, text_ltb_irrefl s)

pub text_not-ltb_trans :
    (a b c : Text) → text_ltb a b ≡ false → text_ltb b c ≡ false → text_ltb a c ≡ false
unfolding text_ltb
text_not-ltb_trans [] [] c h k = k
text_not-ltb_trans [] (y ∷ b) c h k = cc
text_not-ltb_trans (x ∷ a) b [] h k = refl
text_not-ltb_trans (x ∷ a) [] (z ∷ c) h k = cc
text_not-ltb_trans (x ∷ a) (y ∷ b) (z ∷ c) h k = ground (arith, text_not-ltb_trans a b c)
