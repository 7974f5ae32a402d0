-- ===== src/Common/Codec.antt =====
-- What common.go calls: `encoding/hex`, and `encoding/json` at the structs that it declares.
use plissken.Base.{◌≡◌, true, Option, some, List, [], ◌∷◌, Text, codes}
use plissken.Js.Process.{Engine, ok}
use plissken.Opaque.Go.{Bytes}
use plissken.Common.Documents.{
  one, many, Document, document_json, fields, Agrees, IsAscii, IsAsciiDocument, has_proper_keys,
}

pub record Hex : Type 0 where
  pub encode : Bytes → Text
  -- `none` is an error.
  pub decode : Text → Option Bytes

pub record HexLaws (h : Hex) : Type 0 where
  pub decode-encode : (b : Bytes) → h.decode (h.encode b) ≡ some b
  pub encode-IsAscii : (b : Bytes) → IsAscii (h.encode b)

pub record InnerOprfRequestResults : Type 0 where
  pub username : Text
  pub app_token : Text
  pub hex_encoded_inputs : List Text
  pub hex_encoded_blinds : List Text
  pub hex_encoded_eval_req_elements : List Text

pub record InnerOprfServerEvaluation : Type 0 where
  pub hex_encoded_elements : List Text

pub record InnerPasswordRegistrationData : Type 0 where
  pub username : Text
  pub app_token : Text
  pub hex_encoded_env_u : Text
  pub hex_encoded_env_u_nonce : Text
  pub hex_encoded_pub_u : Text
  pub hex_encoded_salt : Text

pub record InnerStartPasswordAuthServerResp : Type 0 where
  pub hex_encoded_elements : List Text
  pub hex_encoded_env_u : Text
  pub hex_encoded_env_u_nonce : Text
  pub hex_encoded_rwd_u_salt : Text
  pub hex_encoded_auth_nonce : Text

pub record FinalizePasswordAuthData : Type 0 where
  pub username : Text
  pub app_token : Text
  pub session_token : Text

-- The fields of the structs under the names of their `json` tags.
abbrev pub request_document : InnerOprfRequestResults → Document
request_document d =
    (codes "username", one d.username)
    ∷ (codes "apptoken", one d.app_token)
    ∷ (codes "inputs", many d.hex_encoded_inputs)
    ∷ (codes "blinds", many d.hex_encoded_blinds)
    ∷ (codes "eval_req_elements", many d.hex_encoded_eval_req_elements)
    ∷ []

abbrev pub evaluation_document : InnerOprfServerEvaluation → Document
evaluation_document d = (codes "elements", many d.hex_encoded_elements) ∷ []

abbrev pub registration_document : InnerPasswordRegistrationData → Document
registration_document d =
    (codes "username", one d.username)
    ∷ (codes "apptoken", one d.app_token)
    ∷ (codes "envu", one d.hex_encoded_env_u)
    ∷ (codes "envu_nonce", one d.hex_encoded_env_u_nonce)
    ∷ (codes "pubu", one d.hex_encoded_pub_u)
    ∷ (codes "salt", one d.hex_encoded_salt)
    ∷ []

abbrev pub start_document : InnerStartPasswordAuthServerResp → Document
start_document d =
    (codes "elements", many d.hex_encoded_elements)
    ∷ (codes "envu", one d.hex_encoded_env_u)
    ∷ (codes "envu_nonce", one d.hex_encoded_env_u_nonce)
    ∷ (codes "rwdu_salt", one d.hex_encoded_rwd_u_salt)
    ∷ (codes "auth_nonce", one d.hex_encoded_auth_nonce)
    ∷ []

abbrev pub finalize_document : FinalizePasswordAuthData → Document
finalize_document d =
    (codes "username", one d.username)
    ∷ (codes "apptoken", one d.app_token)
    ∷ (codes "session_token", one d.session_token)
    ∷ []

pub record GoJson : Type 0 where
  -- `json.Marshal` of a struct with these fields.
  pub marshal : Document → Option Text
  -- `json.Unmarshal` into each of the structs.
  pub unmarshal_request : Text → Option InnerOprfRequestResults
  pub unmarshal_evaluation : Text → Option InnerOprfServerEvaluation
  pub unmarshal_registration : Text → Option InnerPasswordRegistrationData
  pub unmarshal_start : Text → Option InnerStartPasswordAuthServerResp
  pub unmarshal_finalize : Text → Option FinalizePasswordAuthData

-- A text that stands for a document of ASCII texts under proper keys. `JSON.parse` says what a text
-- stands for.
pub record Stands (js : Engine) (t : Text) (d : Document) : Type 0 where
  pub parses : js.parse t ≡ ok (document_json d)
  pub proper : has_proper_keys d ≡ true
  pub ascii : IsAsciiDocument d

-- Any document in which these fields stand unmarshals to this message.
abbrev pub Means : {M : Type 0} → Engine → (Text → Option M) → Document → M → Type 0
Means js unmarshal x m =
    (t : Text) (d : Document) → Stands js t d → Agrees (fields d) x → unmarshal t ≡ some m

-- The JSON of JavaScript and that of Go mean the same, on such documents.
pub record JsonLaws (js : Engine) (g : GoJson) : Type 0 where
  pub parse-stringify :
      (d : Document)
      → has_proper_keys d ≡ true
      → IsAsciiDocument d
      → js.parse (js.stringify (document_json d)) ≡ ok (document_json d)
  pub marshal_some :
      (d : Document)
      → has_proper_keys d ≡ true
      → IsAsciiDocument d
      → (t : Text) × (g.marshal d ≡ some t) × (js.parse t ≡ ok (document_json d))
  pub unmarshal_request_some :
      (t : Text) (d : Document) (x : InnerOprfRequestResults)
      → Stands js t d
      → Agrees (fields d) (request_document x)
      → g.unmarshal_request t ≡ some x
  pub unmarshal_evaluation_some :
      (t : Text) (d : Document) (x : InnerOprfServerEvaluation)
      → Stands js t d
      → Agrees (fields d) (evaluation_document x)
      → g.unmarshal_evaluation t ≡ some x
  pub unmarshal_registration_some :
      (t : Text) (d : Document) (x : InnerPasswordRegistrationData)
      → Stands js t d
      → Agrees (fields d) (registration_document x)
      → g.unmarshal_registration t ≡ some x
  pub unmarshal_start_some :
      (t : Text) (d : Document) (x : InnerStartPasswordAuthServerResp)
      → Stands js t d
      → Agrees (fields d) (start_document x)
      → g.unmarshal_start t ≡ some x
  pub unmarshal_finalize_some :
      (t : Text) (d : Document) (x : FinalizePasswordAuthData)
      → Stands js t d
      → Agrees (fields d) (finalize_document x)
      → g.unmarshal_finalize t ≡ some x
