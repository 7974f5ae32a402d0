-- ===== src/Sdk/Classes.antt =====
-- The classes of lib.ts: their constructors, which check that the fields are there, and what
-- `JSON.stringify` sees of an instance. A field holds any JSON value, since JavaScript does not
-- check the declared types.
use plissken.Base.{Text, codes, none, some, ◌++◌}
use plissken.Json.{Json, null, bool, num, str, arr, obj, end, field, field_of}
use plissken.Js.Process.{Engine, Result, ok, throw, Thrown, error, type_error}
use plissken.Js.Template.{template, thrown_by}

pub record OprfServerEvaluation : Type 0 where
  pub elements : Json

pub record OprfRequestResult : Type 0 where
  pub apptoken : Json
  pub username : Json
  pub inputs : Json
  pub blinds : Json
  pub eval_req_elements : Json

pub record StartPasswordAuthenticationData : Type 0 where
  pub elements : Json
  pub envu : Json
  pub envu_nonce : Json
  pub rwdu_salt : Json
  pub auth_nonce : Json

pub record PasswordRegistrationData : Type 0 where
  pub apptoken : Json
  pub username : Json
  pub envu : Json
  pub envu_nonce : Json
  pub pubu : Json
  pub salt : Json

-- Its constructor takes the fields themselves.
pub record FinalizePasswordAutheticationData : Type 0 where
  pub apptoken : Text
  pub username : Text
  pub session_token : Text

-- Pure steps that may throw, in a row.
infixl 5 ◌>>=◌
abbrev pub ◌>>=◌ : {A B : Type 0} → Result A → (A → Result B) → Result B
ok a >>= f = f a
throw e >>= f = throw e

module _ (js : Engine) where
  -- `throw new Error(`${k} not found in ${cls}: ${object}`)`.
  abbrev pub not_found : Text → Text → Json → Thrown
  not_found cls k object =
      thrown_by error (template js (k ++ codes " not found in " ++ cls ++ codes ": ") object)

  -- `if (!(k in object)) throw new Error(…)`, and then `object[k]`.
  unfoldable pub require : Text → Text → Json → Result Json
  require cls k (obj fs) = elim (field_of k fs) [
    | some v ↦ ok v
    | none ↦ throw (not_found cls k (obj fs))
  ]
  require cls k (arr xs) = throw (not_found cls k (arr xs))
  require cls k null = throw (type_error (js.in_failure k null))
  require cls k (bool b) = throw (type_error (js.in_failure k (bool b)))
  require cls k (num n) = throw (type_error (js.in_failure k (num n)))
  require cls k (str s) = throw (type_error (js.in_failure k (str s)))

  unfoldable pub new_server_evaluation : Json → Result OprfServerEvaluation
  new_server_evaluation object = do
    elements ← require (codes "OprfServerEvaluation") (codes "elements") object
    ok (record { elements = elements })

  unfoldable pub new_request_result : Json → Result OprfRequestResult
  new_request_result object = do
    let cls = codes "OprfRequestResult"
    apptoken ← require cls (codes "apptoken") object
    username ← require cls (codes "username") object
    inputs ← require cls (codes "inputs") object
    blinds ← require cls (codes "blinds") object
    eval_req_elements ← require cls (codes "eval_req_elements") object
    ok (record {
      apptoken = apptoken;
      username = username;
      inputs = inputs;
      blinds = blinds;
      eval_req_elements = eval_req_elements;
    })

  unfoldable pub new_start_data : Json → Result StartPasswordAuthenticationData
  new_start_data object = do
    let cls = codes "StartPasswordAuthenticationData"
    elements ← require cls (codes "elements") object
    envu ← require cls (codes "envu") object
    envu_nonce ← require cls (codes "envu_nonce") object
    rwdu_salt ← require cls (codes "rwdu_salt") object
    auth_nonce ← require cls (codes "auth_nonce") object
    ok (record {
      elements = elements;
      envu = envu;
      envu_nonce = envu_nonce;
      rwdu_salt = rwdu_salt;
      auth_nonce = auth_nonce;
    })

  unfoldable pub new_registration_data : Json → Result PasswordRegistrationData
  new_registration_data object = do
    let cls = codes "PasswordRegistrationData"
    apptoken ← require cls (codes "apptoken") object
    username ← require cls (codes "username") object
    envu ← require cls (codes "envu") object
    envu_nonce ← require cls (codes "envu_nonce") object
    pubu ← require cls (codes "pubu") object
    salt ← require cls (codes "salt") object
    ok (record {
      apptoken = apptoken;
      username = username;
      envu = envu;
      envu_nonce = envu_nonce;
      pubu = pubu;
      salt = salt;
    })

-- What `JSON.stringify` sees of an instance: its fields in the order of their assignment.
unfoldable pub evaluation_json : OprfServerEvaluation → Json
evaluation_json d = obj (field (codes "elements") d.elements end)

unfoldable pub request_json : OprfRequestResult → Json
request_json d = obj (
    field (codes "apptoken") d.apptoken (
      field (codes "username") d.username (
        field (codes "inputs") d.inputs (
          field (codes "blinds") d.blinds
            (field (codes "eval_req_elements") d.eval_req_elements end)))))

unfoldable pub start_data_json : StartPasswordAuthenticationData → Json
start_data_json d = obj (
    field (codes "elements") d.elements (
      field (codes "envu") d.envu (
        field (codes "envu_nonce") d.envu_nonce
          (field (codes "rwdu_salt") d.rwdu_salt (field (codes "auth_nonce") d.auth_nonce end)))))

unfoldable pub registration_json : PasswordRegistrationData → Json
registration_json d = obj (
    field (codes "apptoken") d.apptoken (
      field (codes "username") d.username (
        field (codes "envu") d.envu (
          field (codes "envu_nonce") d.envu_nonce
            (field (codes "pubu") d.pubu (field (codes "salt") d.salt end))))))

unfoldable pub finalize_json : FinalizePasswordAutheticationData → Json
finalize_json d = obj (
    field (codes "apptoken") (str d.apptoken) (
      field (codes "username") (str d.username)
        (field (codes "session_token") (str d.session_token) end)))
