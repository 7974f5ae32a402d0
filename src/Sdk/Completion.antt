-- ===== src/Sdk/Completion.antt =====
-- When `run_password_auth` returns: by which answers.
pub mod Registered
use plissken.Base.{◌≡◌, ◌↔◌, refl, sym, subst, ap, ◌∙◌, Text, codes, ◌++◌, ==_iff}
use plissken.Json.{Json}
use plissken.Js.Process.{
  Engine, Process, ok, HttpResponse, post, log, ended, done, calls, prints, ◌>>=◌, ◌>>◌,
  make_oprf_request, finalize_password_registration, finalize_password_authentication,
}
use plissken.Js.Run.{Env, Ends, run}
use plissken.Js.Completed.{ok-completed, print-completed, call-completed}
use plissken.Sdk.Completed.{
  start_password_auth-completed, finalize_password_auth-completed, start_password_reg-completed,
  finalize_password_reg-completed,
}
use plissken.Sdk.Classes.{
  OprfRequestResult, StartPasswordAuthenticationData, OprfServerEvaluation,
  PasswordRegistrationData, new_request_result, new_start_data, new_server_evaluation,
  new_registration_data, request_json, start_data_json, evaluation_json, registration_json,
  finalize_json,
}
use plissken.Sdk.Requests.{
  start_password_auth, finalize_password_auth, start_password_reg, finalize_password_reg,
}
use plissken.Sdk.Protocol.{run_password_auth, run_password_reg}

module _ {W : Type 0} (js : Engine) (env : Env W)
    (apptoken username password server_pub_key endpoint : Text) where
  -- The answers of an authentication, in the worlds in which they are asked for.
  pub record Confirms (w : W) (token : Text) (w' : W) : Type 0 where
    pub made : Text
    pub document : Json
    pub request : OprfRequestResult
    pub started : HttpResponse
    pub finalized : HttpResponse
    pub start_data : StartPasswordAuthenticationData
    pub w₁ : W
    pub w₂ : W
    pub w₃ : W
    pub makes : env.bindings (make_oprf_request apptoken username password) w ≡ (ok made, w₁)
    pub parses : js.parse made ≡ ok document
    pub reads : new_request_result js document ≡ ok request
    pub starts :
        env.http
          (post
            (endpoint ++ codes "/start_password_authentication")
            (js.stringify (request_json request)))
          w₁
        ≡ (ok started, w₂)
    pub started_ok : started.status ≡ 200
    pub start_reads : new_start_data js started.body ≡ ok start_data
    pub derives :
        env.bindings
          (finalize_password_authentication username
            (js.stringify (request_json request))
            (js.stringify (start_data_json start_data))
            server_pub_key)
          w₂
        ≡ (ok token, w₃)
    pub finalizes :
        env.http
          (post (endpoint ++ codes "/finalize_password_authentication") (
            js.stringify (
              finalize_json
                (record { apptoken = apptoken; username = username; session_token = token }))))
          w₃
        ≡ (ok finalized, w')
    pub finalized_ok : finalized.status ≡ 200

  confirmed :
      (w w' : W) (token : Text)
      → Confirms w token w'
      → Ends
          (run env (run_password_auth js apptoken username password server_pub_key endpoint) w)
          (ok token)
          w'
  unfolding run run_password_auth start_password_auth finalize_password_auth
  confirmed w w' token c =
      let started = (==_iff c.started.status 200).1 c.started_ok in
      let finalized = (==_iff c.finalized.status 200).1 c.finalized_ok in
      rw
        (
          c.makes, c.parses, c.reads, c.starts, started, c.start_reads, c.derives, c.finalizes,
          finalized,
        )
        (record { result = refl; world = refl })

  -- What is left of an authentication when the request is made, and when it is answered.
  abbrev derives_token : OprfRequestResult → StartPasswordAuthenticationData → Process Text
  derives_token request d = do
    token ← calls (
        finalize_password_authentication username (js.stringify (request_json request))
          (js.stringify (start_data_json d)) server_pub_key)
    finalize_password_auth js endpoint
        (record { apptoken = apptoken; username = username; session_token = token })
    prints (log (codes "session_token: " ++ token))
    done token

  token_finalized :
      (request : OprfRequestResult) (d : StartPasswordAuthenticationData) (w w' : W) (token : Text)
      → Ends (run env (derives_token request d) w) (ok token) w'
      → (v : W) × (finalized : HttpResponse) × (env.bindings
            (finalize_password_authentication username
              (js.stringify (request_json request))
              (js.stringify (start_data_json d))
              server_pub_key)
            w
          ≡ (ok token, v))
        × (env.http
              (post (endpoint ++ codes "/finalize_password_authentication") (
                js.stringify (
                  finalize_json
                    (record { apptoken = apptoken; username = username; session_token = token }))))
              v
            ≡ (ok finalized, w'))
        × (finalized.status ≡ 200)
  unfolding run
  token_finalized request d w w' token h =
      let (t, v, derives, h₁) = call-completed env token w' _ _ w h in
      let (finalized, u, finalizes, finalized_ok, last) =
        finalize_password_auth-completed js env endpoint token w' _ _ v h₁ in
      let result = last.result in
      let same : t ≡ token = cc in
      (
        v,
        finalized,
        derives ∙ ap (λ x. (ok x, v)) same,
        ap
              (λ x.
                env.http
                  (post (endpoint ++ codes "/finalize_password_authentication") (
                    js.stringify (
                      finalize_json
                        (record { apptoken = apptoken; username = username; session_token = x }))))
                  v)
              (sym same)
            ∙ finalizes
            ∙ ap (λ x. (ok finalized, x)) last.world,
        finalized_ok,
      )

  answered :
      (made : Text) (document : Json) (request : OprfRequestResult) (w w₁ w' : W) (token : Text)
      → env.bindings (make_oprf_request apptoken username password) w ≡ (ok made, w₁)
      → js.parse made ≡ ok document
      → new_request_result js document ≡ ok request
      → Ends
          (run env (start_password_auth js endpoint request >>= derives_token request) w₁)
          (ok token)
          w'
      → Confirms w token w'
  answered made document request w w₁ w' token makes parses reads h =
      let (started, w₂, start_data, starts, started_ok, start_reads, rest) =
        start_password_auth-completed js env endpoint token w' request (derives_token request) w₁
          h in
      let (w₃, finalized, derives, finalizes, finalized_ok) =
        token_finalized request start_data w₂ w' token rest in
      record {
        made = made;
        document = document;
        request = request;
        started = started;
        finalized = finalized;
        start_data = start_data;
        w₁ = w₁;
        w₂ = w₂;
        w₃ = w₃;
        makes = makes;
        parses = parses;
        reads = reads;
        starts = starts;
        started_ok = started_ok;
        start_reads = start_reads;
        derives = derives;
        finalizes = finalizes;
        finalized_ok = finalized_ok;
      }

  returned :
      (w w' : W) (token : Text)
      → Ends
          (run env (run_password_auth js apptoken username password server_pub_key endpoint) w)
          (ok token)
          w'
      → Confirms w token w'
  unfolding run_password_auth
  returned w w' token h =
      let (made, w₁, makes, h₁) =
        call-completed env token w' _ _ w (print-completed env token w' _ _ w h) in
      let (document, parses, h₂) = ok-completed env token w' (js.parse made) _ w₁ h₁ in
      let (request, reads, h₃) =
        ok-completed env token w' (new_request_result js document) _ w₁ h₂ in
      answered made document request w w₁ w' token makes parses reads h₃

  -- `run_password_auth` returns a token and leaves a world exactly if the bindings make a request of
  -- the user name and the password, the server answers it with status 200 and a document that can be
  -- read, the bindings derive this token of that document, and the server confirms the token with
  -- status 200 and leaves that world.
  pub run_password_auth-Confirms :
      (w w' : W) (token : Text)
      → Ends
          (run env (run_password_auth js apptoken username password server_pub_key endpoint) w)
          (ok token)
          w'
        ↔ Confirms w token w'
  run_password_auth-Confirms w w' token = (returned w w' token, confirmed w w' token)
