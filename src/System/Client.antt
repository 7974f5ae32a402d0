-- ===== src/System/Client.antt =====
-- What the bindings give lib.ts, and what lib.ts sends on of it.
use plissken.Base.{◌≡◌, ◌≢◌, refl, some, List, [], ◌∷◌, Text, text_eq, false}
use plissken.Json.{Json}
use plissken.Js.Process.{
  Engine, ok, make_oprf_request, finalize_password_registration, finalize_password_authentication,
}
use plissken.Sdk.Classes.{
  OprfRequestResult, OprfServerEvaluation, StartPasswordAuthenticationData,
  PasswordRegistrationData, new_request_result, new_server_evaluation, new_start_data,
  new_registration_data, request_json, evaluation_json, start_data_json, registration_json,
}
use plissken.Opaque.Go.{length}
use plissken.Opaque.Slices.{to_key-full}
use plissken.Opaque.Primitives.{Primitives, Laws}
use plissken.Opaque.Client.{OprfRequest, Envelope, derive_session_token}
use plissken.Opaque.Envelopes.{digest, IsSealed, make_oprf_request_lem, make_env_u-IsSealed}
use plissken.Common.Documents.{IsAscii, document_json}
use plissken.Common.Codec.{
  Hex, HexLaws, GoJson, JsonLaws, request_document, evaluation_document, registration_document,
  start_document,
}
use plissken.Common.Messages
use plissken.Common.Messages.{
  OprfRequestResults, StartPasswordAuthServerResp, unmarshal_request, unmarshal_evaluation,
  unmarshal_registration, unmarshal_start, marshal_evaluation, marshal_start,
}
use plissken.Common.Marshalled.{
  marshal_request_lem, marshal_evaluation_lem, marshal_registration_lem, marshal_start_lem,
}
use plissken.Bindings.{exports, make_request, finalize_registration, finalize_authentication}
use plissken.System.Forwarding.{
  new_request_result_lem, new_server_evaluation_lem, new_start_data_lem, new_registration_data_lem,
}

text_eq-nil : (t : Text) → t ≢ [] → text_eq t [] ≡ false
unfolding text_eq
text_eq-nil [] ne = absurd (ne refl)
text_eq-nil (x ∷ t) ne = refl

module _ {R : Type 0} (p : Primitives R) (laws : Laws p) (h : Hex) (hl : HexLaws h) (js : Engine)
    (g : GoJson) (jl : JsonLaws js g) where
  -- The message of a request, for an app and a user.
  abbrev pub request_of : (a u : Text) → OprfRequest p → OprfRequestResults p
  request_of a u req = record {
    username = u;
    app_token = a;
    inputs = req.inputs;
    fin_data = req.fin_data;
    eval_req = req.eval_req;
  }

  -- A request that the bindings have made, that lib.ts reads, and that Go reads again of its text.
  pub record Made (a u password : Text) (random : R) : Type 0 where
    pub req : OprfRequest p
    pub after : R
    pub made : Text
    pub document : Json
    pub request : OprfRequestResult
    pub returns : exports p h g (make_oprf_request a u password) random ≡ (some made, after)
    pub parses : js.parse made ≡ ok document
    pub reads : new_request_result js document ≡ ok request
    pub sees :
        unmarshal_request p h g (js.stringify (request_json request)) ≡ some (request_of a u req)
    pub serves :
        (k : p.PrivateKey)
        → (eval : List p.Element) × (p.evaluate k req.eval_req ≡ some eval)
          × (p.finalize req.fin_data eval ≡ some (laws.prf k (digest p laws password) ∷ []))

  pub make_request-Made :
      (a u password : Text) (random : R)
      → u ≢ []
      → password ≢ []
      → IsAscii a
      → IsAscii u
      → Made a u password random
  unfolding exports make_request
  make_request-Made a u password random nu np pa pu =
      let (req, after, e₁, again, serves) = make_oprf_request_lem p laws password random in
      let (x, t, e₂, stands, means) =
        marshal_request_lem p laws h hl js g jl (request_of a u req) again pu pa in
      let (request, reads, sees) =
        new_request_result_lem js g jl (unmarshal_request p h g) (request_of a u req) t x stands
          means in
      record {
        req = req;
        after = after;
        made = t;
        document = document_json (request_document x);
        request = request;
        returns = rw (text_eq-nil u nu, text_eq-nil password np, e₁, e₂);
        parses = stands.parses;
        reads = reads;
        sees = sees;
        serves = serves;
      }

  -- What lib.ts reads of an evaluation, and Go reads again of its text.
  pub evaluation_lem :
      (els : List p.Element)
      → (t : Text) × (j : Json) × (evaluation : OprfServerEvaluation) × (marshal_evaluation p h g
            els
          ≡ some t)
        × (js.parse t ≡ ok j)
        × (new_server_evaluation js j ≡ ok evaluation)
        × (unmarshal_evaluation p h g (js.stringify (evaluation_json evaluation)) ≡ some els)
  evaluation_lem els =
      let (x, t, e, stands, means) = marshal_evaluation_lem p laws h hl js g jl els in
      let (evaluation, reads, sees) =
        new_server_evaluation_lem js g jl (unmarshal_evaluation p h g) els t x stands means in
      (t, document_json (evaluation_document x), evaluation, e, stands.parses, reads, sees)

  pub start_data_lem :
      (m : StartPasswordAuthServerResp p.Element)
      → (t : Text) × (j : Json) × (start_data : StartPasswordAuthenticationData) × (marshal_start p
            h g m
          ≡ some t)
        × (js.parse t ≡ ok j)
        × (new_start_data js j ≡ ok start_data)
        × (unmarshal_start p h g (js.stringify (start_data_json start_data)) ≡ some m)
  start_data_lem m =
      let (x, t, e, stands, means) = marshal_start_lem p laws h hl js g jl m in
      let (start_data, reads, sees) =
        new_start_data_lem js g jl (unmarshal_start p h g) m t x stands means in
      (t, document_json (start_document x), start_data, e, stands.parses, reads, sees)

  -- A registration that the bindings have finished, that lib.ts reads, and Go reads again of its text.
  pub record Finished (a u request evaluation key x pub_s : Text) (random : R) : Type 0 where
    pub env : Envelope
    pub after : R
    pub finalized : Text
    pub document : Json
    pub registration : PasswordRegistrationData
    pub returns :
        exports p h g (finalize_password_registration a u request evaluation key) random
        ≡ (some finalized, after)
    pub parses : js.parse finalized ≡ ok document
    pub reads : new_registration_data js document ≡ ok registration
    pub sees :
        unmarshal_registration p h g (js.stringify (registration_json registration))
        ≡ some (record {
          username = u;
          app_token = a;
          env_u = env.envu;
          env_u_nonce = env.envu_nonce;
          pub_u = env.pubu;
          salt = env.salt;
        })
    pub sealed : IsSealed p laws x pub_s env

  pub finalize_registration-Finished :
      (a u request evaluation key x pub_s : Text) (random : R) (m : OprfRequestResults p)
      (els : List p.Element)
      → IsAscii a
      → IsAscii u
      → h.decode key ≡ some pub_s
      → length pub_s ≡ 32
      → unmarshal_request p h g request ≡ some m
      → unmarshal_evaluation p h g evaluation ≡ some els
      → p.finalize m.fin_data els ≡ some (x ∷ [])
      → Finished a u request evaluation key x pub_s random
  unfolding exports finalize_registration
  finalize_registration-Finished a u request evaluation key x pub_s random m els pa pu ek lk em ee
        ex =
      let (env, after, e₁, sealed) = make_env_u-IsSealed p laws m.fin_data els x pub_s random ex in
      let sent : Messages.PasswordRegistrationData = record {
        username = u;
        app_token = a;
        env_u = env.envu;
        env_u_nonce = env.envu_nonce;
        pub_u = env.pubu;
        salt = env.salt;
      } in
      let (y, t, e₂, stands, means) = marshal_registration_lem p laws h hl js g jl sent pu pa in
      let (registration, reads, sees) =
        new_registration_data_lem js g jl (unmarshal_registration p h g) sent t y stands means in
      record {
        env = env;
        after = after;
        finalized = t;
        document = document_json (registration_document y);
        registration = registration;
        returns = rw (ek, em, ee, to_key-full pub_s lk, e₁, e₂);
        parses = stands.parses;
        reads = reads;
        sees = sees;
        sealed = sealed;
      }

  pub finalize_authentication_lem :
      (u request start_data key pub_s token : Text) (random after : R) (m : OprfRequestResults p)
      (resp : StartPasswordAuthServerResp p.Element)
      → h.decode key ≡ some pub_s
      → unmarshal_request p h g request ≡ some m
      → unmarshal_start p h g start_data ≡ some resp
      → derive_session_token p m.fin_data resp.eval resp.env_u resp.env_u_nonce resp.rwd_u_salt
          resp.auth_nonce random
        ≡ (some token, after)
      → exports p h g (finalize_password_authentication u request start_data key) random
        ≡ (some (h.encode token), after)
  unfolding exports finalize_authentication
  finalize_authentication_lem u request start_data key pub_s token random after m resp ek em er e =
      rw (ek, em, er, e)
