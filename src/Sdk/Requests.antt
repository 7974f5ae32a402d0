-- ===== src/Sdk/Requests.antt =====
-- The requests that lib.ts makes of an auth server.
use plissken.Base.{Text, codes, Option, none, some, [], ◌++◌, ◌==◌, if◌then◌else◌}
use plissken.Json.Print.{decimal}
use plissken.Js.Process.{
  Engine, Process, Result, Thrown, error, text, HttpResponse, response_of, get, post, ended, done,
  throws, sends, try_catch, ◌>>=◌,
}
use plissken.Js.Template.{template, thrown_by}
use plissken.Sdk.Classes.{
  OprfServerEvaluation, OprfRequestResult, StartPasswordAuthenticationData,
  PasswordRegistrationData, FinalizePasswordAutheticationData, new_server_evaluation,
  new_start_data, request_json, registration_json, finalize_json,
}

module _ (js : Engine) where
  -- `${route} route returned ${what}: ${status}: ${data}`.
  unfoldable pub bad_response : Text → Text → HttpResponse → Result Text
  bad_response route what r =
      template js
        (route ++ codes " route returned " ++ what ++ codes ": " ++ decimal r.status ++ codes ": ")
        r.body

  abbrev pub bad_status : Text → HttpResponse → Result Text
  bad_status route r = bad_response route (codes "bad status code") r

  -- What the `catch` of `start_password_reg` throws.
  unfoldable pub rethrown : Thrown → Option HttpResponse → Thrown
  rethrown e none = e
  rethrown e (some r) =
      thrown_by error (bad_response (codes "/start_password_registration") (codes "bad response") r)

  unfoldable pub check_endpoint_health : Text → Process (Unit {0})
  check_endpoint_health endpoint = do
    response ← sends (get (endpoint ++ codes "/health") [])
    if response.status == 200
        then done tt
        else throws (thrown_by error (bad_status (codes "/health") response))

  -- `start_password_auth_with_plissken_server`.
  unfoldable pub start_password_auth :
      Text → OprfRequestResult → Process StartPasswordAuthenticationData
  start_password_auth endpoint oprf_request_result = do
    response ← sends (
        post (endpoint ++ codes "/start_password_authentication")
          (js.stringify (request_json oprf_request_result)))
    if response.status == 200
        then ended (new_start_data js response.body)
        else throws (thrown_by error (bad_status (codes "/start_password_authentication") response))

  -- `finalize_password_auth_with_plissken_server`.
  unfoldable pub finalize_password_auth :
      Text → FinalizePasswordAutheticationData → Process (Unit {0})
  finalize_password_auth endpoint fin_pass_auth_data = do
    response ← sends (
        post (endpoint ++ codes "/finalize_password_authentication")
          (js.stringify (finalize_json fin_pass_auth_data)))
    if response.status == 200
        then done tt
        else throws
            (thrown_by error (bad_status (codes "/finalize_password_authentication") response))

  -- `start_password_reg_with_plissken_server`: no test of the status here.
  unfoldable pub start_password_reg : Text → OprfRequestResult → Process OprfServerEvaluation
  start_password_reg endpoint oprf_request_result =
      try_catch
        (do
          response ← sends (
              post (endpoint ++ codes "/start_password_registration")
                (js.stringify (request_json oprf_request_result)))
          ended (new_server_evaluation js response.body))
        (λ e. throws (rethrown e (response_of e)))

  -- `finalize_password_reg_with_plissken_server`: a bare text is thrown here.
  unfoldable pub finalize_password_reg : Text → PasswordRegistrationData → Process (Unit {0})
  finalize_password_reg endpoint password_reg_data = do
    response ← sends (
        post (endpoint ++ codes "/finalize_password_registration")
          (js.stringify (registration_json password_reg_data)))
    if response.status == 200
        then done tt
        else throws (thrown_by text (bad_status (codes "/finalize_password_registration") response))
