-- ===== src/Session.antt =====
-- The session gates: who sees a page (components/auth/AuthGate.tsx, components/auth/RoleGate.tsx,
-- lib/auth.ts). An effect that runs again leaves its earlier runs behind, each with its own request,
-- and the answers arrive in any order: both gates keep the list of their runs, the newest first.
-- `encodeURIComponent` is an argument.
pub mod Auth
pub mod AuthEnds
pub mod AuthSettles
pub mod Roles
pub mod RoleViews
use mathlib.Core.Option.{some-injective}
use clip_to_doc_archive.Prelude.{
  subst, ℕ, zero, suc, ◌≡◌, Option, none, some, List, [], ◌∷◌, ◌++◌, if◌then◌else◌, is_empty, All,
  get_elem?,
}
use clip_to_doc_archive.Text.{Text, codes}

-- `/login?next=…` for the path of the page; a missing path is the archive's.
abbrev pub login_url : (Text → Text) → Option Text → Text
login_url encode none = codes "/login?next=" ++ encode (codes "/archive")
login_url encode (some path) =
    codes "/login?next=" ++ encode (if is_empty path then codes "/archive" else path)

abbrev pub update_at : {A : Type 0} → ℕ → (A → A) → List A → List A
update_at n f [] = []
update_at zero f (x ∷ xs) = f x ∷ xs
update_at (suc n) f (x ∷ xs) = x ∷ update_at n f xs

pub update_at-All :
    {A : Type 0} (P : A → Type 0) (n : ℕ) (f : A → A) (xs : List A)
    → ((x : A) → P x → P (f x))
    → All P xs
    → All P (update_at n f xs)
update_at-All P n f [] k h = tt
update_at-All P zero f (x ∷ xs) k h = (k x h.0, h.1)
update_at-All P (suc n) f (x ∷ xs) k h = (h.0, update_at-All P n f xs k h.1)

pub All-get_elem? :
    {A : Type 0} (P : A → Type 0) (n : ℕ) (xs : List A) (x : A)
    → All P xs
    → get_elem? xs n ≡ some x
    → P x
All-get_elem? P n [] x h e = cc
All-get_elem? P zero (y ∷ ys) x h e = subst P (some-injective y x e) h.0
All-get_elem? P (suc n) (y ∷ ys) x h e = All-get_elem? P n ys x h.1 e
