-- ===== src/Common/Messages.antt =====
-- The messages of common.go, as JSON and back. `none` is an error, or an element that the group
-- rejects.
use plissken.Base.{Option, none, some, List, [], ◌∷◌, map, Text}
use plissken.Opaque.Go.{Bytes}
use plissken.Opaque.Primitives.{Primitives}
use plissken.Common.Codec.{
  Hex, GoJson, FinalizePasswordAuthData, request_document, evaluation_document,
  registration_document, start_document,
}

infixl 5 ◌>>=◌
abbrev pub ◌>>=◌ : {A B : Type 0} → Option A → (A → Option B) → Option B
some a >>= f = f a
none >>= f = none

-- A loop that appends the result of each item, up to the first error.
unfoldable pub each : {A B : Type 0} → (A → Option B) → List A → Option (List B)
each f [] = some []
each f (a ∷ l) = do b ← f a; bs ← each f l; some (b ∷ bs)

pub record PasswordRegistrationData : Type 0 where
  pub username : Text
  pub app_token : Text
  pub env_u : Bytes
  pub env_u_nonce : Bytes
  pub pub_u : Bytes
  pub salt : Bytes

pub record StartPasswordAuthServerResp (E : Type 0) : Type 0 where
  pub eval : List E
  pub env_u : Bytes
  pub env_u_nonce : Bytes
  pub rwd_u_salt : Bytes
  pub auth_nonce : Bytes

module _ {R : Type 0} (p : Primitives R) where
  pub record OprfRequestResults : Type 0 where
    pub username : Text
    pub app_token : Text
    pub inputs : List Bytes
    pub fin_data : p.FinalizeData
    pub eval_req : List p.Element

  module _ (h : Hex) (g : GoJson) where
    unfoldable pub marshal_elements : List p.Element → Option (List Text)
    marshal_elements elements =
        each (λ el. do sel ← p.compress_element el; some (h.encode sel)) elements

    unfoldable pub unmarshal_elements : List Text → Option (List p.Element)
    unmarshal_elements hex = each (λ hsel. do sel ← h.decode hsel; p.unmarshal_element sel) hex

    unfoldable pub marshal_request : OprfRequestResults → Option Text
    marshal_request d = do
      blinds ←
          each (λ bl. do sbl ← p.marshal_scalar bl; some (h.encode sbl)) (p.copy_blinds d.fin_data)
      eval_req_elements ← marshal_elements d.eval_req
      g.marshal (
          request_document (record {
            username = d.username;
            app_token = d.app_token;
            hex_encoded_inputs = map h.encode d.inputs;
            hex_encoded_blinds = blinds;
            hex_encoded_eval_req_elements = eval_req_elements;
          }))

    -- The elements of the request are not read: they are made again of the inputs and the blinds.
    unfoldable pub unmarshal_request : Text → Option OprfRequestResults
    unmarshal_request t = do
      di ← g.unmarshal_request t
      inputs ← each h.decode di.hex_encoded_inputs
      blinds ← each (λ sbl. do b ← h.decode sbl; p.unmarshal_scalar b) di.hex_encoded_blinds
      blinded ← p.deterministic_blind inputs blinds
      some (record {
        username = di.username;
        app_token = di.app_token;
        inputs = inputs;
        fin_data = blinded.0;
        eval_req = blinded.1;
      })

    unfoldable pub marshal_evaluation : List p.Element → Option Text
    marshal_evaluation eval = do
      arr ← marshal_elements eval
      g.marshal (evaluation_document (record { hex_encoded_elements = arr }))

    unfoldable pub unmarshal_evaluation : Text → Option (List p.Element)
    unmarshal_evaluation t = do
      di ← g.unmarshal_evaluation t
      unmarshal_elements di.hex_encoded_elements

    unfoldable pub marshal_registration : PasswordRegistrationData → Option Text
    marshal_registration d = g.marshal (
        registration_document (record {
          username = d.username;
          app_token = d.app_token;
          hex_encoded_env_u = h.encode d.env_u;
          hex_encoded_env_u_nonce = h.encode d.env_u_nonce;
          hex_encoded_pub_u = h.encode d.pub_u;
          hex_encoded_salt = h.encode d.salt;
        }))

    unfoldable pub unmarshal_registration : Text → Option PasswordRegistrationData
    unmarshal_registration t = do
      di ← g.unmarshal_registration t
      env_u ← h.decode di.hex_encoded_env_u
      env_u_nonce ← h.decode di.hex_encoded_env_u_nonce
      pub_u ← h.decode di.hex_encoded_pub_u
      salt ← h.decode di.hex_encoded_salt
      some (record {
        username = di.username;
        app_token = di.app_token;
        env_u = env_u;
        env_u_nonce = env_u_nonce;
        pub_u = pub_u;
        salt = salt;
      })

    unfoldable pub marshal_start : StartPasswordAuthServerResp p.Element → Option Text
    marshal_start d = do
      elements ← marshal_elements d.eval
      g.marshal (
          start_document (record {
            hex_encoded_elements = elements;
            hex_encoded_env_u = h.encode d.env_u;
            hex_encoded_env_u_nonce = h.encode d.env_u_nonce;
            hex_encoded_rwd_u_salt = h.encode d.rwd_u_salt;
            hex_encoded_auth_nonce = h.encode d.auth_nonce;
          }))

    unfoldable pub unmarshal_start : Text → Option (StartPasswordAuthServerResp p.Element)
    unmarshal_start t = do
      di ← g.unmarshal_start t
      eval ← unmarshal_elements di.hex_encoded_elements
      env_u ← h.decode di.hex_encoded_env_u
      env_u_nonce ← h.decode di.hex_encoded_env_u_nonce
      rwd_u_salt ← h.decode di.hex_encoded_rwd_u_salt
      auth_nonce ← h.decode di.hex_encoded_auth_nonce
      some (record {
        eval = eval;
        env_u = env_u;
        env_u_nonce = env_u_nonce;
        rwd_u_salt = rwd_u_salt;
        auth_nonce = auth_nonce;
      })

    -- It has no methods of its own.
    unfoldable pub unmarshal_finalize : Text → Option FinalizePasswordAuthData
    unmarshal_finalize t = g.unmarshal_finalize t
