-- ===== src/Sdk/Fields.antt =====
-- What the constructors of lib.ts's classes keep of a document, and which error they throw.
use plissken.Base.{
  ◌≡◌, refl, ap, ◌∙◌, ◌++◌, append_assoc, Text, codes, Option, none, some, List, [], ◌∷◌, arith,
}
use plissken.Json.{Json, obj, Fields, end, field, field_of}
use plissken.Js.Process.{Engine, Result, ok, throw, Thrown, error, type_error}
use plissken.Js.Template.{template, thrown_by}
use plissken.Json.Print.{to_string, object_string}
use plissken.Sdk.Classes.{
  require, new_server_evaluation, new_request_result, new_start_data, new_registration_data,
  evaluation_json, request_json, start_data_json, registration_json, not_found, ◌>>=◌,
}

-- The fields with these names, in this order; or the first name that is missing.
pub data Selection : Type 0 where
  all_found : Fields → Selection
  missing : Text → Selection

abbrev pub put_before : Text → Option Json → Selection → Selection
put_before k none rest = missing k
put_before k (some v) (all_found fs) = all_found (field k v fs)
put_before k (some v) (missing j) = missing j

pub select : List Text → Fields → Selection
select [] fs = all_found end
select (k ∷ ks) fs = put_before k (field_of k fs) (select ks fs)

-- What is thrown for an object without the field `k`, by its own field `toString`.
abbrev pub missing_error : Engine → (cls k : Text) → Option Json → Thrown
missing_error js cls k none =
    error (k ++ codes " not found in " ++ cls ++ codes ": [object Object]")
missing_error js cls k (some v) = type_error js.no_primitive

abbrev pub outcome : Engine → Text → Fields → Selection → Result Json
outcome js cls fs (all_found gs) = ok (obj gs)
outcome js cls fs (missing k) = throw (missing_error js cls k (field_of (codes "toString") fs))

abbrev pub written : {A : Type 0} → (A → Json) → Result A → Result Json
written json r = r >>= λ d. ok (json d)

-- `cls` reads an object by keeping exactly the fields `keys`, each with its value and in this
-- order. If one is missing it throws the error that names the first missing one, or a `TypeError` if
-- the object has a field `toString` of its own.
abbrev pub Keeps :
    {A : Type 0} → Engine → Text → List Text → (Json → Result A) → (A → Json) → Type 0
Keeps js cls keys read json =
    (fs : Fields) → written json (read (obj fs)) ≡ outcome js cls fs (select keys fs)

abbrev thrown : Engine → Text → Fields → Selection → Result Json
thrown js cls fs (all_found gs) = ok (obj gs)
thrown js cls fs (missing k) = throw (not_found js cls k (obj fs))

missing_lem :
    (js : Engine) (cls k : Text) (own : Option Json)
    → thrown_by error (elim (object_string own) [
      | some t ↦ ok ((k ++ codes " not found in " ++ cls ++ codes ": ") ++ t)
      | none ↦ throw (type_error js.no_primitive)
    ])
      ≡ missing_error js cls k own
unfolding object_string
missing_lem js cls k none = ap error (simp append_assoc)
missing_lem js cls k (some v) = refl

not_found_lem :
    (js : Engine) (cls k : Text) (fs : Fields)
    → not_found js cls k (obj fs) ≡ missing_error js cls k (field_of (codes "toString") fs)
unfolding template to_string
not_found_lem js cls k fs = missing_lem js cls k (field_of (codes "toString") fs)

thrown-outcome :
    (js : Engine) (cls : Text) (fs : Fields) (s : Selection)
    → thrown js cls fs s ≡ outcome js cls fs s
thrown-outcome js cls fs (all_found gs) = refl
thrown-outcome js cls fs (missing k) = ap throw (not_found_lem js cls k fs)

module _ (js : Engine) where
  new_server_evaluation_lem :
      (fs : Fields)
      → written evaluation_json (new_server_evaluation js (obj fs))
        ≡ thrown js (codes "OprfServerEvaluation") fs (select (codes "elements" ∷ []) fs)
  unfolding new_server_evaluation require evaluation_json select
  new_server_evaluation_lem fs = ground arith

  new_server_evaluation-Keeps :
      Keeps js
        (codes "OprfServerEvaluation")
        (codes "elements" ∷ [])
        (new_server_evaluation js)
        evaluation_json
  new_server_evaluation-Keeps fs =
      new_server_evaluation_lem fs ∙ thrown-outcome js _ fs (select (codes "elements" ∷ []) fs)

  new_request_result_lem :
      (fs : Fields)
      → written request_json (new_request_result js (obj fs))
        ≡ thrown js (codes "OprfRequestResult") fs (
            select
              (codes "apptoken"
                ∷ codes "username"
                ∷ codes "inputs"
                ∷ codes "blinds"
                ∷ codes "eval_req_elements"
                ∷ [])
              fs)
  unfolding new_request_result require request_json select
  new_request_result_lem fs = ground arith

  new_request_result-Keeps :
      Keeps js
        (codes "OprfRequestResult")
        (codes "apptoken"
          ∷ codes "username"
          ∷ codes "inputs"
          ∷ codes "blinds"
          ∷ codes "eval_req_elements"
          ∷ [])
        (new_request_result js)
        request_json
  new_request_result-Keeps fs =
      new_request_result_lem fs
      ∙ thrown-outcome js _ fs (
          select
            (codes "apptoken"
              ∷ codes "username"
              ∷ codes "inputs"
              ∷ codes "blinds"
              ∷ codes "eval_req_elements"
              ∷ [])
            fs)

  new_start_data_lem :
      (fs : Fields)
      → written start_data_json (new_start_data js (obj fs))
        ≡ thrown js (codes "StartPasswordAuthenticationData") fs (
            select
              (codes "elements"
                ∷ codes "envu"
                ∷ codes "envu_nonce"
                ∷ codes "rwdu_salt"
                ∷ codes "auth_nonce"
                ∷ [])
              fs)
  unfolding new_start_data require start_data_json select
  new_start_data_lem fs = ground arith

  new_start_data-Keeps :
      Keeps js
        (codes "StartPasswordAuthenticationData")
        (codes "elements"
          ∷ codes "envu"
          ∷ codes "envu_nonce"
          ∷ codes "rwdu_salt"
          ∷ codes "auth_nonce"
          ∷ [])
        (new_start_data js)
        start_data_json
  new_start_data-Keeps fs =
      new_start_data_lem fs
      ∙ thrown-outcome js _ fs (
          select
            (codes "elements"
              ∷ codes "envu"
              ∷ codes "envu_nonce"
              ∷ codes "rwdu_salt"
              ∷ codes "auth_nonce"
              ∷ [])
            fs)

  new_registration_data_lem :
      (fs : Fields)
      → written registration_json (new_registration_data js (obj fs))
        ≡ thrown js (codes "PasswordRegistrationData") fs (
            select
              (codes "apptoken"
                ∷ codes "username"
                ∷ codes "envu"
                ∷ codes "envu_nonce"
                ∷ codes "pubu"
                ∷ codes "salt"
                ∷ [])
              fs)
  unfolding new_registration_data require registration_json select
  new_registration_data_lem fs = ground arith

  new_registration_data-Keeps :
      Keeps js
        (codes "PasswordRegistrationData")
        (codes "apptoken"
          ∷ codes "username"
          ∷ codes "envu"
          ∷ codes "envu_nonce"
          ∷ codes "pubu"
          ∷ codes "salt"
          ∷ [])
        (new_registration_data js)
        registration_json
  new_registration_data-Keeps fs =
      new_registration_data_lem fs
      ∙ thrown-outcome js _ fs (
          select
            (codes "apptoken"
              ∷ codes "username"
              ∷ codes "envu"
              ∷ codes "envu_nonce"
              ∷ codes "pubu"
              ∷ codes "salt"
              ∷ [])
            fs)

  -- Each class of lib.ts that is read from a document keeps exactly its fields of any object, each
  -- with its value and in the order of the class, and drops all others. If one is missing, then the
  -- constructor throws the error that names the class and the first missing field; but if the object
  -- has a field `toString` of its own, it throws a `TypeError` in its place.
  pub constructors-Keeps :
      Keeps js
        (codes "OprfServerEvaluation")
        (codes "elements" ∷ [])
        (new_server_evaluation js)
        evaluation_json
      × Keeps js
          (codes "OprfRequestResult")
          (codes "apptoken"
            ∷ codes "username"
            ∷ codes "inputs"
            ∷ codes "blinds"
            ∷ codes "eval_req_elements"
            ∷ [])
          (new_request_result js)
          request_json
      × Keeps js
          (codes "StartPasswordAuthenticationData")
          (codes "elements"
            ∷ codes "envu"
            ∷ codes "envu_nonce"
            ∷ codes "rwdu_salt"
            ∷ codes "auth_nonce"
            ∷ [])
          (new_start_data js)
          start_data_json
      × Keeps js
          (codes "PasswordRegistrationData")
          (codes "apptoken"
            ∷ codes "username"
            ∷ codes "envu"
            ∷ codes "envu_nonce"
            ∷ codes "pubu"
            ∷ codes "salt"
            ∷ [])
          (new_registration_data js)
          registration_json
  constructors-Keeps = (
    new_server_evaluation-Keeps, new_request_result-Keeps, new_start_data-Keeps,
    new_registration_data-Keeps,
  )
