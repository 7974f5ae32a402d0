-- ===== src/System/Forwarding.antt =====
-- What the classes of lib.ts make of the documents of the Go programs, and what these read of it.
use plissken.Base.{◌≡◌, refl, Option, some, [], ◌∷◌, Text, codes, text_eq}
use plissken.Json.{str, arr, field_of}
use plissken.Js.Process.{Engine, ok}
use plissken.Sdk.Classes.{
  OprfRequestResult, OprfServerEvaluation, StartPasswordAuthenticationData,
  PasswordRegistrationData, require, new_request_result, new_server_evaluation, new_start_data,
  new_registration_data, request_json, evaluation_json, start_data_json, registration_json,
  finalize_json,
}
use plissken.Common.Documents.{
  Document, one, many, items, document_json, has_proper_keys, IsAscii, IsAsciiDocument,
}
use plissken.Common.Codec.{
  GoJson, JsonLaws, Stands, Means, InnerOprfRequestResults, InnerOprfServerEvaluation,
  InnerPasswordRegistrationData, InnerStartPasswordAuthServerResp, FinalizePasswordAuthData,
  request_document, evaluation_document, registration_document, start_document,
}

-- The fields of messages in the order of lib.ts.
abbrev reordered_request : InnerOprfRequestResults → Document
reordered_request x =
    (codes "apptoken", one x.app_token)
    ∷ (codes "username", one x.username)
    ∷ (codes "inputs", many x.hex_encoded_inputs)
    ∷ (codes "blinds", many x.hex_encoded_blinds)
    ∷ (codes "eval_req_elements", many x.hex_encoded_eval_req_elements)
    ∷ []

abbrev reordered_registration : InnerPasswordRegistrationData → Document
reordered_registration x =
    (codes "apptoken", one x.app_token)
    ∷ (codes "username", one x.username)
    ∷ (codes "envu", one x.hex_encoded_env_u)
    ∷ (codes "envu_nonce", one x.hex_encoded_env_u_nonce)
    ∷ (codes "pubu", one x.hex_encoded_pub_u)
    ∷ (codes "salt", one x.hex_encoded_salt)
    ∷ []

abbrev reordered_finalize : FinalizePasswordAuthData → Document
reordered_finalize x =
    (codes "apptoken", one x.app_token)
    ∷ (codes "username", one x.username)
    ∷ (codes "session_token", one x.session_token)
    ∷ []

module _ (js : Engine) (g : GoJson) (jl : JsonLaws js g) where
  module _ {M : Type 0} (unmarshal : Text → Option M) (m : M) (t : Text) where
    pub new_request_result_lem :
        (x : InnerOprfRequestResults)
        → Stands js t (request_document x)
        → Means js unmarshal (request_document x) m
        → (request : OprfRequestResult) × (new_request_result js
              (document_json (request_document x))
            ≡ ok request)
          × (unmarshal (js.stringify (request_json request)) ≡ some m)
    unfolding new_request_result require field_of text_eq request_json has_proper_keys
    new_request_result_lem x stands means =
        let d = reordered_request x in
        let (u, more) = stands.ascii in
        let ascii : IsAsciiDocument d = (more.0, (u, more.1)) in
        (
          record {
            apptoken = str x.app_token;
            username = str x.username;
            inputs = arr (items x.hex_encoded_inputs);
            blinds = arr (items x.hex_encoded_blinds);
            eval_req_elements = arr (items x.hex_encoded_eval_req_elements);
          },
          refl,
          means (js.stringify (document_json d)) d
              (record { parses = jl.parse-stringify d refl ascii; proper = refl; ascii = ascii })
              (refl, (refl, (refl, (refl, (refl, tt))))),
        )

    pub new_server_evaluation_lem :
        (x : InnerOprfServerEvaluation)
        → Stands js t (evaluation_document x)
        → Means js unmarshal (evaluation_document x) m
        → (evaluation : OprfServerEvaluation) × (new_server_evaluation js
              (document_json (evaluation_document x))
            ≡ ok evaluation)
          × (unmarshal (js.stringify (evaluation_json evaluation)) ≡ some m)
    unfolding new_server_evaluation require field_of text_eq evaluation_json has_proper_keys
    new_server_evaluation_lem x stands means =
        let d = evaluation_document x in
        (
          record { elements = arr (items x.hex_encoded_elements) },
          refl,
          means (js.stringify (document_json d)) d
              (record {
                parses = jl.parse-stringify d refl stands.ascii;
                proper = refl;
                ascii = stands.ascii;
              })
              (refl, tt),
        )

    pub new_start_data_lem :
        (x : InnerStartPasswordAuthServerResp)
        → Stands js t (start_document x)
        → Means js unmarshal (start_document x) m
        → (start_data : StartPasswordAuthenticationData) × (new_start_data js
              (document_json (start_document x))
            ≡ ok start_data)
          × (unmarshal (js.stringify (start_data_json start_data)) ≡ some m)
    unfolding new_start_data require field_of text_eq start_data_json has_proper_keys
    new_start_data_lem x stands means =
        let d = start_document x in
        (
          record {
            elements = arr (items x.hex_encoded_elements);
            envu = str x.hex_encoded_env_u;
            envu_nonce = str x.hex_encoded_env_u_nonce;
            rwdu_salt = str x.hex_encoded_rwd_u_salt;
            auth_nonce = str x.hex_encoded_auth_nonce;
          },
          refl,
          means (js.stringify (document_json d)) d
              (record {
                parses = jl.parse-stringify d refl stands.ascii;
                proper = refl;
                ascii = stands.ascii;
              })
              (refl, (refl, (refl, (refl, (refl, tt))))),
        )

    pub new_registration_data_lem :
        (x : InnerPasswordRegistrationData)
        → Stands js t (registration_document x)
        → Means js unmarshal (registration_document x) m
        → (registration : PasswordRegistrationData) × (new_registration_data js
              (document_json (registration_document x))
            ≡ ok registration)
          × (unmarshal (js.stringify (registration_json registration)) ≡ some m)
    unfolding new_registration_data require field_of text_eq registration_json has_proper_keys
    new_registration_data_lem x stands means =
        let d = reordered_registration x in
        let (u, more) = stands.ascii in
        let ascii : IsAsciiDocument d = (more.0, (u, more.1)) in
        (
          record {
            apptoken = str x.app_token;
            username = str x.username;
            envu = str x.hex_encoded_env_u;
            envu_nonce = str x.hex_encoded_env_u_nonce;
            pubu = str x.hex_encoded_pub_u;
            salt = str x.hex_encoded_salt;
          },
          refl,
          means (js.stringify (document_json d)) d
              (record { parses = jl.parse-stringify d refl ascii; proper = refl; ascii = ascii })
              (refl, (refl, (refl, (refl, (refl, (refl, tt)))))),
        )

  pub finalize_json_lem :
      (a u token : Text)
      → IsAscii a
      → IsAscii u
      → IsAscii token
      → g.unmarshal_finalize (
          js.stringify
            (finalize_json (record { apptoken = a; username = u; session_token = token })))
        ≡ some (record { username = u; app_token = a; session_token = token })
  unfolding field_of text_eq finalize_json has_proper_keys
  finalize_json_lem a u token pa pu pt =
      let x : FinalizePasswordAuthData = record {
        username = u;
        app_token = a;
        session_token = token;
      } in
      let d = reordered_finalize x in
      let ascii : IsAsciiDocument d = (pa, (pu, (pt, tt))) in
      jl.unmarshal_finalize_some (js.stringify (document_json d)) d x
        (record { parses = jl.parse-stringify d refl ascii; proper = refl; ascii = ascii })
        (refl, (refl, (refl, tt)))
