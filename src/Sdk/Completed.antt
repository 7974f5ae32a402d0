-- ===== src/Sdk/Completed.antt =====
-- What has been answered when a request of lib.ts returns.
use plissken.Base.{◌≡◌, Text, codes, ◌++◌, ◌==◌, ==_iff}
use plissken.Js.Process.{Engine, Process, ok, HttpResponse, post, ended, done, ◌>>=◌, response_of}
use plissken.Js.Run.{Env, Ends, run}
use plissken.Js.Completed.{ok-completed, send-test-completed, try-completed}
use plissken.Sdk.Classes.{
  OprfRequestResult, StartPasswordAuthenticationData, OprfServerEvaluation,
  PasswordRegistrationData, FinalizePasswordAutheticationData, new_start_data,
  new_server_evaluation, request_json, registration_json, finalize_json,
}
use plissken.Sdk.Requests.{
  start_password_auth, finalize_password_auth, start_password_reg, finalize_password_reg, rethrown,
}

module _ {W : Type 0} (js : Engine) (env : Env W) (endpoint : Text) {B : Type 0} (b : B)
    (w' : W) where
  pub start_password_auth-completed :
      (d : OprfRequestResult) (f : StartPasswordAuthenticationData → Process B) (w : W)
      → Ends (run env (start_password_auth js endpoint d >>= f) w) (ok b) w'
      → (x : HttpResponse) × (u : W) × (a : StartPasswordAuthenticationData) × (env.http
            (post
              (endpoint ++ codes "/start_password_authentication")
              (js.stringify (request_json d)))
            w
          ≡ (ok x, u))
        × (x.status ≡ 200)
        × (new_start_data js x.body ≡ ok a)
        × Ends (run env (f a) u) (ok b) w'
  unfolding start_password_auth
  start_password_auth-completed d f w h =
      let (x, u, sent, good, rest) =
        send-test-completed env b w' _ (λ x. x.status == 200)
          (λ x. ended (new_start_data js x.body)) _ f w h in
      let (a, read, rest) = ok-completed env b w' (new_start_data js x.body) f u rest in
      (x, u, a, sent, (==_iff x.status 200).0 good, read, rest)

  pub finalize_password_auth-completed :
      (d : FinalizePasswordAutheticationData) (f : Unit {0} → Process B) (w : W)
      → Ends (run env (finalize_password_auth js endpoint d >>= f) w) (ok b) w'
      → (x : HttpResponse) × (u : W) × (env.http
            (post
              (endpoint ++ codes "/finalize_password_authentication")
              (js.stringify (finalize_json d)))
            w
          ≡ (ok x, u))
        × (x.status ≡ 200)
        × Ends (run env (f tt) u) (ok b) w'
  unfolding finalize_password_auth
  finalize_password_auth-completed d f w h =
      let (x, u, sent, good, rest) =
        send-test-completed env b w' _ (λ x. x.status == 200) (λ x. done tt) _ f w h in
      (x, u, sent, (==_iff x.status 200).0 good, rest)

  pub start_password_reg-completed :
      (d : OprfRequestResult) (f : OprfServerEvaluation → Process B) (w : W)
      → Ends (run env (start_password_reg js endpoint d >>= f) w) (ok b) w'
      → (x : HttpResponse) × (u : W) × (a : OprfServerEvaluation) × (env.http
            (post
              (endpoint ++ codes "/start_password_registration")
              (js.stringify (request_json d)))
            w
          ≡ (ok x, u))
        × (new_server_evaluation js x.body ≡ ok a)
        × Ends (run env (f a) u) (ok b) w'
  unfolding start_password_reg
  start_password_reg-completed d f w h =
      try-completed env b w' _ (λ x. new_server_evaluation js x.body)
        (λ e. rethrown js e (response_of e)) f w h

  pub finalize_password_reg-completed :
      (d : PasswordRegistrationData) (f : Unit {0} → Process B) (w : W)
      → Ends (run env (finalize_password_reg js endpoint d >>= f) w) (ok b) w'
      → (x : HttpResponse) × (u : W) × (env.http
            (post
              (endpoint ++ codes "/finalize_password_registration")
              (js.stringify (registration_json d)))
            w
          ≡ (ok x, u))
        × (x.status ≡ 200)
        × Ends (run env (f tt) u) (ok b) w'
  unfolding finalize_password_reg
  finalize_password_reg-completed d f w h =
      let (x, u, sent, good, rest) =
        send-test-completed env b w' _ (λ x. x.status == 200) (λ x. done tt) _ f w h in
      (x, u, sent, (==_iff x.status 200).0 good, rest)
