-- ===== src/Json.antt =====
-- Values as `JSON.parse` returns them, and how the client reads an `unknown`: a field that may be
-- missing, `typeof`, `Array.isArray`, `String(value ?? "")`.
-- A number is whole, or it is a fraction given by its floor and by the text that it prints as.
use clip_to_doc_archive.Prelude.Int.{ℤ, pos, negsuc}
use clip_to_doc_archive.Prelude.{
  ℕ, zero, suc, ◌+◌, ◌/◌, ◌%◌, ◌≤◌, ◌<◌, ◌≡◌, refl, Bool, true, false, Option, none, some, List, [],
  ◌∷◌, ◌++◌, map, arith, ltb, if◌then◌else◌, ◌==◌, nat_eq, list_eq,
}
use clip_to_doc_archive.Text.{Text, codes}

pub data Number : Type 0 where
  whole : ℤ → Number
  fraction : ℤ → Text → Number

mutual
  pub data Value : Type 0 where
    null : Value
    bool : Bool → Value
    num : Number → Value
    str : Text → Value
    arr : Items → Value
    obj : Fields → Value

  pub data Items : Type 0 where
    nil : Items
    cons : Value → Items → Items

  pub data Fields : Type 0 where
    end : Fields
    field : Text → Value → Fields → Fields

abbrev pub to_list : Items → List Value
to_list nil = []
to_list (cons v vs) = v ∷ to_list vs

abbrev pub of_list : List Value → Items
of_list [] = nil
of_list (v ∷ vs) = cons v (of_list vs)

-- The property of a name; `none` is `undefined`.
abbrev pub get : Fields → Text → Option Value
get end name = none
get (field key v fields) name = if key == name then some v else get fields name

-- The property of any value: an object's field, and nothing else that the client reads by name.
abbrev pub property : Value → Text → Option Value
property (obj fields) name = get fields name
property _ name = none

abbrev pub entries : Fields → List (Text × Value)
entries end = []
entries (field key v fields) = (key, v) ∷ entries fields

-- `typeof value === "string" ? value : d`, where `value` may be missing.
abbrev pub text_or : Text → Option Value → Text
text_or d (some (str s)) = s
text_or d _ = d

-- `Array.isArray(value) ? value : []`
abbrev pub array_or_empty : Option Value → List Value
array_or_empty (some (arr items)) = to_list items
array_or_empty _ = []

abbrev pub texts : List Text → Value
texts l = arr (of_list (map str l))

-- The digits of a number, most significant first; `n < 2 ^ fuel` is enough fuel.
decimal_from : ℕ → ℕ → Text → Text
decimal_from zero n acc = acc
decimal_from (suc fuel) n acc =
    let more = decimal_from fuel (n / 10) ((48 + n % 10) ∷ acc) in
    if ltb n 10 then (48 + n) ∷ acc else more

unfoldable pub decimal : ℕ → Text
unfolding decimal_from
decimal n = decimal_from (suc n) n []

unfoldable pub show_number : Number → Text
unfolding decimal
show_number (whole (pos n)) = decimal n
show_number (whole (negsuc n)) = b'-' ∷ decimal (suc n)
show_number (fraction _ s) = s

-- `String(value ?? "")`; the elements of an array are joined by commas.
unfoldable mutual
  pub show_value : Value → Text
  show_value null = []
  show_value (bool b) = if b then codes "true" else codes "false"
  show_value (num n) = show_number n
  show_value (str s) = s
  show_value (arr items) = show_items items
  show_value (obj fields) = codes "[object Object]"

  pub show_items : Items → Text
  show_items nil = []
  show_items (cons v nil) = show_value v
  show_items (cons v (cons w vs)) = show_value v ++ (b',' ∷ show_items (cons w vs))

-- `String(value ?? "")` of a field that may be missing.
unfoldable pub show : Option Value → Text
unfolding show_value show_items show_number
show none = []
show (some v) = show_value v

pub decimal_of_one_digit : (n : ℕ) → n < 10 → decimal n ≡ (48 + n) ∷ []
unfolding decimal decimal_from
decimal_of_one_digit n h = let e : ltb n 10 ≡ true = ground arith in rw e refl

pub decimal_of_two_digits :
    (n : ℕ) → 10 ≤ n → n < 100 → decimal n ≡ (48 + n / 10) ∷ (48 + n % 10) ∷ []
unfolding decimal decimal_from
decimal_of_two_digits zero h k = absurd (omega arith)
decimal_of_two_digits (suc m) h k =
    let e : ltb (suc m) 10 ≡ false = ground arith in
    let e' : ltb (suc m / 10) 10 ≡ true = ground arith in rw (e, e') refl
