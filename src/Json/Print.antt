-- ===== src/Json/Print.antt =====
-- A value in a JavaScript template literal, `${v}`, and as a condition.
pub mod Digits
use plissken.Base.{
  ℕ, zero, suc, ◌+◌, ◌/◌, ◌%◌, Text, codes, text_eq, Bool, true, false, [], ◌∷◌, ◌++◌, ltb, Option,
  none, some, if◌then◌else◌,
}
use plissken.Json.{Json, null, bool, num, str, arr, obj, Items, nil, cons, field_of}

-- The decimal digits of a number, in front of `rest`. A number has at most as many digits as its
-- value plus one, which is the fuel given below.
digits_from : ℕ → ℕ → Text → Text
digits_from zero n rest = rest
digits_from (suc fuel) n rest =
    let here = (b'0' + n % 10) ∷ rest in
    let more = digits_from fuel (n / 10) here in if ltb n 10 then here else more

unfoldable pub decimal : ℕ → Text
unfolding digits_from
decimal n = digits_from (suc n) n []

abbrev pub bool_text : Bool → Text
bool_text b = if b then codes "true" else codes "false"

-- The fields of an object are never functions, so one that has a field `toString` of its own has no
-- text.
unfoldable pub object_string : Option Json → Option Text
object_string none = some (codes "[object Object]")
object_string (some v) = none

abbrev pub comma : Option Text → Option Text → Option Text
comma none t = none
comma (some s) none = none
comma (some s) (some t) = some (s ++ codes "," ++ t)

-- `none` where JavaScript throws a `TypeError`. An array is the texts of its items, joined by commas;
-- `null` is the empty text in it.
unfoldable mutual
  pub to_string : Json → Option Text
  to_string null = some (codes "null")
  to_string (bool b) = some (bool_text b)
  to_string (num n) = some n
  to_string (str s) = some s
  to_string (arr xs) = joined xs
  to_string (obj fs) = object_string (field_of (codes "toString") fs)

  pub item_text : Json → Option Text
  item_text null = some []
  item_text (bool b) = some (bool_text b)
  item_text (num n) = some n
  item_text (str s) = some s
  item_text (arr xs) = joined xs
  item_text (obj fs) = object_string (field_of (codes "toString") fs)

  pub joined : Items → Option Text
  joined nil = some []
  joined (cons v nil) = item_text v
  joined (cons v (cons w vs)) = comma (item_text v) (joined (cons w vs))

-- Whether a value counts as true: not `null`, `false`, 0 and the empty text.
unfoldable pub truthy : Json → Bool
truthy null = false
truthy (bool b) = b
truthy (num n) = if text_eq n (codes "0") then false else true
truthy (str []) = false
truthy (str (c ∷ s)) = true
truthy (arr xs) = true
truthy (obj fs) = true
