-- ===== src/Sdk/Completion/Registered.antt =====
-- When `run_password_reg` returns: by which answers.
use plissken.Base.{◌≡◌, ◌↔◌, refl, ap, ◌∙◌, Text, codes, ◌++◌, ==_iff}
use plissken.Json.{Json}
use plissken.Js.Process.{
  Engine, Process, ok, HttpResponse, post, log, ended, calls, prints, ◌>>=◌, ◌>>◌,
  make_oprf_request, finalize_password_registration,
}
use plissken.Js.Run.{Env, Ends, run}
use plissken.Js.Completed.{ok-completed, print-completed, call-completed}
use plissken.Sdk.Completed.{start_password_reg-completed, finalize_password_reg-completed}
use plissken.Sdk.Classes.{
  OprfRequestResult, OprfServerEvaluation, PasswordRegistrationData, new_request_result,
  new_server_evaluation, new_registration_data, request_json, evaluation_json, registration_json,
}
use plissken.Sdk.Requests.{start_password_reg, finalize_password_reg}
use plissken.Sdk.Protocol.{run_password_reg}

module _ {W : Type 0} (js : Engine) (env : Env W)
    (apptoken username password server_pub_key endpoint : Text) where
  -- The answers of a registration.
  pub record Registers (w w' : W) : Type 0 where
    pub made : Text
    pub document : Json
    pub request : OprfRequestResult
    pub started : HttpResponse
    pub evaluation : OprfServerEvaluation
    pub finalized : Text
    pub registration : Json
    pub registration_data : PasswordRegistrationData
    pub accepted : HttpResponse
    pub w₁ : W
    pub w₂ : W
    pub w₃ : W
    pub makes : env.bindings (make_oprf_request apptoken username password) w ≡ (ok made, w₁)
    pub parses : js.parse made ≡ ok document
    pub reads : new_request_result js document ≡ ok request
    pub starts :
        env.http
          (post
            (endpoint ++ codes "/start_password_registration")
            (js.stringify (request_json request)))
          w₁
        ≡ (ok started, w₂)
    pub start_reads : new_server_evaluation js started.body ≡ ok evaluation
    pub finalizes :
        env.bindings
          (finalize_password_registration apptoken username
            (js.stringify (request_json request))
            (js.stringify (evaluation_json evaluation))
            server_pub_key)
          w₂
        ≡ (ok finalized, w₃)
    pub finalized_parses : js.parse finalized ≡ ok registration
    pub finalized_reads : new_registration_data js registration ≡ ok registration_data
    pub accepts :
        env.http
          (post
            (endpoint ++ codes "/finalize_password_registration")
            (js.stringify (registration_json registration_data)))
          w₃
        ≡ (ok accepted, w')
    pub accepted_ok : accepted.status ≡ 200

  registered :
      (w w' : W)
      → Registers w w'
      → Ends
          (run env (run_password_reg js apptoken username password server_pub_key endpoint) w)
          (ok tt)
          w'
  unfolding run run_password_reg start_password_reg finalize_password_reg
  registered w w' c =
      let accepted = (==_iff c.accepted.status 200).1 c.accepted_ok in
      rw
        (
          c.makes, c.parses, c.reads, c.starts, c.start_reads, c.finalizes, c.finalized_parses,
          c.finalized_reads, c.accepts, accepted,
        )
        (record { result = refl; world = refl })

  -- What is left of a registration when the request is made, and when it is evaluated.
  abbrev finalizes_reg : OprfRequestResult → OprfServerEvaluation → Process (Unit {0})
  finalizes_reg request d = do
    finalized ← calls (
        finalize_password_registration apptoken username (js.stringify (request_json request))
          (js.stringify (evaluation_json d)) server_pub_key)
    registration ← ended (js.parse finalized)
    password_reg_data ← ended (new_registration_data js registration)
    finalize_password_reg js endpoint password_reg_data
    prints (log (codes "Password registration successful"))

  evaluated :
      (made : Text) (document : Json) (request : OprfRequestResult) (started : HttpResponse)
      (evaluation : OprfServerEvaluation) (w w₁ w₂ w' : W)
      → env.bindings (make_oprf_request apptoken username password) w ≡ (ok made, w₁)
      → js.parse made ≡ ok document
      → new_request_result js document ≡ ok request
      → env.http
          (post
            (endpoint ++ codes "/start_password_registration")
            (js.stringify (request_json request)))
          w₁
        ≡ (ok started, w₂)
      → new_server_evaluation js started.body ≡ ok evaluation
      → Ends (run env (finalizes_reg request evaluation) w₂) (ok tt) w'
      → Registers w w'
  unfolding run
  evaluated made document request started evaluation w w₁ w₂ w' makes parses reads starts
        start_reads h =
      let (finalized, w₃, finalizes, h₁) = call-completed env tt w' _ _ w₂ h in
      let (registration, finalized_parses, h₂) =
        ok-completed env tt w' (js.parse finalized) _ w₃ h₁ in
      let (data', finalized_reads, h₃) =
        ok-completed env tt w' (new_registration_data js registration) _ w₃ h₂ in
      let (accepted, v, accepts, accepted_ok, last) =
        finalize_password_reg-completed js env endpoint tt w' data' _ w₃ h₃ in
      record {
        made = made;
        document = document;
        request = request;
        started = started;
        evaluation = evaluation;
        finalized = finalized;
        registration = registration;
        registration_data = data';
        accepted = accepted;
        w₁ = w₁;
        w₂ = w₂;
        w₃ = w₃;
        makes = makes;
        parses = parses;
        reads = reads;
        starts = starts;
        start_reads = start_reads;
        finalizes = finalizes;
        finalized_parses = finalized_parses;
        finalized_reads = finalized_reads;
        accepts = accepts ∙ ap (λ x. (ok accepted, x)) last.world;
        accepted_ok = accepted_ok;
      }

  registers :
      (w w' : W)
      → Ends
          (run env (run_password_reg js apptoken username password server_pub_key endpoint) w)
          (ok tt)
          w'
      → Registers w w'
  unfolding run_password_reg
  registers w w' h =
      let (made, w₁, makes, h₁) =
        call-completed env tt w' _ _ w (print-completed env tt w' _ _ w h) in
      let (document, parses, h₂) = ok-completed env tt w' (js.parse made) _ w₁ h₁ in
      let (request, reads, h₃) = ok-completed env tt w' (new_request_result js document) _ w₁ h₂ in
      let (started, w₂, evaluation, starts, start_reads, rest) =
        start_password_reg-completed js env endpoint tt w' request (finalizes_reg request) w₁ h₃ in
      evaluated made document request started evaluation w w₁ w₂ w' makes parses reads starts
        start_reads rest

  -- `run_password_reg` returns and leaves a world exactly if the bindings make a request of the user
  -- name and the password, the server answers it with a document that can be read, with any status
  -- that axios does not throw, the bindings make a registration of that document, and the server
  -- accepts the registration with status 200 and leaves that world.
  pub run_password_reg-Registers :
      (w w' : W)
      → Ends
          (run env (run_password_reg js apptoken username password server_pub_key endpoint) w)
          (ok tt)
          w'
        ↔ Registers w w'
  run_password_reg-Registers w w' = (registers w w', registered w w')
