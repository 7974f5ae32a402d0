-- ===== src/LoginForm/Messages.antt =====
-- The message of a handler that failed, case by case.
use plissken.Base.{
  ◌≡◌, refl, ap, ◌∙◌, append_assoc, Text, text_eq, codes, Option, none, some, [], ◌∷◌, ◌++◌,
  append-nil, Bool, true, false, if◌then◌else◌,
}
use plissken.Json.{Json, null, bool, num, str, arr, obj, field_of}
use plissken.Json.Print.{to_string, joined, object_string, truthy}
use plissken.Js.Process.{
  Engine, Result, ok, throw, Thrown, error, type_error, syntax_error, text, axios_error,
  thrown_string, is_axios_error, response_of, HttpResponse,
}
use plissken.Js.Template.{template}
use plissken.Sdk.Classes.{◌>>=◌}
use plissken.LoginForm.{response_detail, failure}

-- The body of an answer as it ends a message; none if it is an object that has no text, or an array
-- with one.
unfoldable pub body_detail : Json → Option Text
body_detail null = some []
body_detail (bool false) = some []
body_detail (bool true) = some (codes ": true")
body_detail (num n) = if text_eq n (codes "0") then some [] else some (codes ": " ++ n)
body_detail (str []) = some []
body_detail (str (c ∷ s)) = some (codes ": " ++ (c ∷ s))
body_detail (arr xs) = elim (joined xs) [ some t ↦ some (codes ": " ++ t) | none ↦ none ]
body_detail (obj fs) = elim (field_of (codes "toString") fs) [
  | none ↦ some (codes ": [object Object]")
  | some v ↦ none
]

unfoldable pub error_text : Text → Text
error_text [] = codes "Error"
error_text (c ∷ m) = codes "Error: " ++ (c ∷ m)

unfoldable pub type_error_text : Text → Text
type_error_text [] = codes "TypeError"
type_error_text (c ∷ m) = codes "TypeError: " ++ (c ∷ m)

unfoldable pub syntax_error_text : Text → Text
syntax_error_text [] = codes "SyntaxError"
syntax_error_text (c ∷ m) = codes "SyntaxError: " ++ (c ∷ m)

abbrev pub with_detail : Text → Option Text → Option Text
with_detail m none = none
with_detail m (some d) = some (m ++ d)

-- What is shown for what was thrown.
unfoldable pub failed_text : (axios_prefix prefix : Text) → Thrown → Option Text
failed_text axios_prefix prefix (error m) = some (prefix ++ error_text m)
failed_text axios_prefix prefix (type_error m) = some (prefix ++ type_error_text m)
failed_text axios_prefix prefix (syntax_error m) = some (prefix ++ syntax_error_text m)
failed_text axios_prefix prefix (text t) = some (prefix ++ t)
failed_text axios_prefix prefix (axios_error m none) = some (axios_prefix ++ error_text m)
failed_text axios_prefix prefix (axios_error m (some r)) =
    with_detail (axios_prefix ++ error_text m) (body_detail r.body)

module _ (js : Engine) where
  -- No text is a `TypeError`.
  abbrev pub if_text : Option Text → Result Text
  if_text none = throw (type_error js.no_primitive)
  if_text (some t) = ok t

  number_lem :
      (n : Text) (b : Bool)
      → (if (if b then false else true) then template js (codes ": ") (num n) else ok [])
        ≡ if_text (if b then some [] else some (codes ": " ++ n))
  unfolding template to_string
  number_lem n true = refl
  number_lem n false = refl

  array_lem :
      (o : Option Text)
      → elim o [ some t ↦ ok (codes ": " ++ t) | none ↦ throw (type_error js.no_primitive) ]
        ≡ if_text (elim o [ some t ↦ some (codes ": " ++ t) | none ↦ none ])
  array_lem none = refl
  array_lem (some t) = refl

  object_lem :
      (o : Option Json)
      → elim (object_string o) [
        | some t ↦ ok (codes ": " ++ t)
        | none ↦ throw (type_error js.no_primitive)
      ]
        ≡ if_text (elim o [ none ↦ some (codes ": [object Object]") | some v ↦ none ])
  unfolding object_string
  object_lem none = refl
  object_lem (some v) = refl

  response_detail-body :
      (n : _) (v : Json)
      → response_detail js (some (record { status = n; body = v })) ≡ if_text (body_detail v)
  unfolding response_detail template to_string truthy body_detail
  response_detail-body n null = refl
  response_detail-body n (bool false) = refl
  response_detail-body n (bool true) = refl
  response_detail-body n (num t) = number_lem t (text_eq t (codes "0"))
  response_detail-body n (str []) = refl
  response_detail-body n (str (c ∷ s)) = refl
  response_detail-body n (arr xs) = array_lem (joined xs)
  response_detail-body n (obj fs) = object_lem (field_of (codes "toString") fs)

  detailed :
      (axios_prefix m : Text) (o : Option Text)
      → (if_text o >>= λ d. ok (axios_prefix ++ m ++ d))
        ≡ if_text (with_detail (axios_prefix ++ m) o)
  detailed axios_prefix m none = refl
  detailed axios_prefix m (some d) = ap ok (simp append_assoc)

  error_lem : (m : Text) → thrown_string (error m) ≡ error_text m
  unfolding thrown_string error_text
  error_lem [] = refl
  error_lem (c ∷ m) = refl

  type_error_lem : (m : Text) → thrown_string (type_error m) ≡ type_error_text m
  unfolding thrown_string type_error_text
  type_error_lem [] = refl
  type_error_lem (c ∷ m) = refl

  syntax_error_lem : (m : Text) → thrown_string (syntax_error m) ≡ syntax_error_text m
  unfolding thrown_string syntax_error_text
  syntax_error_lem [] = refl
  syntax_error_lem (c ∷ m) = refl

  axios_error_lem :
      (m : Text) (r : Option HttpResponse) → thrown_string (axios_error m r) ≡ error_text m
  unfolding thrown_string error_text
  axios_error_lem [] r = refl
  axios_error_lem (c ∷ m) r = refl

  text_lem : (prefix t : Text) → ok (prefix ++ thrown_string (text t)) ≡ ok (prefix ++ t)
  unfolding thrown_string
  text_lem prefix t = refl

  plain_lem :
      (axios_prefix m : Text)
      → (response_detail js none >>= λ d.
          ok (axios_prefix ++ thrown_string (axios_error m none) ++ d))
        ≡ ok (axios_prefix ++ error_text m)
  unfolding response_detail
  plain_lem axios_prefix m =
      ap ok (append-nil _) ∙ ap (λ t. ok (axios_prefix ++ t)) (axios_error_lem m none)

  pub failure-failed_text :
      (axios_prefix prefix : Text) (e : Thrown)
      → failure js axios_prefix prefix e ≡ if_text (failed_text axios_prefix prefix e)
  unfolding failure failed_text is_axios_error response_of
  failure-failed_text axios_prefix prefix (error m) = ap (λ t. ok (prefix ++ t)) (error_lem m)
  failure-failed_text axios_prefix prefix (type_error m) =
      ap (λ t. ok (prefix ++ t)) (type_error_lem m)
  failure-failed_text axios_prefix prefix (syntax_error m) =
      ap (λ t. ok (prefix ++ t)) (syntax_error_lem m)
  failure-failed_text axios_prefix prefix (text t) = text_lem prefix t
  failure-failed_text axios_prefix prefix (axios_error m none) = plain_lem axios_prefix m
  failure-failed_text axios_prefix prefix (axios_error m (some r)) =
      ap (λ x. x >>= λ d. ok (axios_prefix ++ thrown_string (axios_error m (some r)) ++ d))
        (response_detail-body r.status r.body)
      ∙ ap (λ t. if_text (body_detail r.body) >>= λ d. ok (axios_prefix ++ t ++ d))
          (axios_error_lem m (some r))
      ∙ detailed axios_prefix (error_text m) (body_detail r.body)
