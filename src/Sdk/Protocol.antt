-- ===== src/Sdk/Protocol.antt =====
-- `run_password_auth` and `run_password_reg`, the two calls of the Go bindings and of the auth server
-- that an authentication and a registration are.
use plissken.Base.{Text, codes, ◌++◌}
use plissken.Js.Process.{
  Engine, Process, make_oprf_request, finalize_password_registration,
  finalize_password_authentication, log, ended, done, calls, prints, ◌>>=◌, ◌>>◌,
}
use plissken.Sdk.Classes.{
  new_request_result, new_registration_data, request_json, start_data_json, evaluation_json,
}
use plissken.Sdk.Requests.{
  start_password_auth, finalize_password_auth, start_password_reg, finalize_password_reg,
}

-- `ping`.
unfoldable pub ping : Text
ping = codes "pong"

module _ (js : Engine) where
  unfoldable pub run_password_auth :
      (apptoken username password server_pub_key endpoint : Text) → Process Text
  run_password_auth apptoken username password server_pub_key endpoint = do
    prints (log (codes "Making password authentication request with password: " ++ password))
    made ← calls (make_oprf_request apptoken username password)
    document ← ended (js.parse made)
    oprf_request_result ← ended (new_request_result js document)
    start_password_auth_data ← start_password_auth js endpoint oprf_request_result
    session_token ← calls (
        finalize_password_authentication username (js.stringify (request_json oprf_request_result))
          (js.stringify (start_data_json start_password_auth_data)) server_pub_key)
    finalize_password_auth js endpoint
        (record { apptoken = apptoken; username = username; session_token = session_token })
    prints (log (codes "session_token: " ++ session_token))
    done session_token

  unfoldable pub run_password_reg :
      (apptoken username password server_pub_key endpoint : Text) → Process (Unit {0})
  run_password_reg apptoken username password server_pub_key endpoint = do
    prints (log (codes "Making password registration request with password: " ++ password))
    made ← calls (make_oprf_request apptoken username password)
    document ← ended (js.parse made)
    oprf_request_result ← ended (new_request_result js document)
    oprf_server_eval ← start_password_reg js endpoint oprf_request_result
    finalized ← calls (
        finalize_password_registration apptoken username
          (js.stringify (request_json oprf_request_result))
          (js.stringify (evaluation_json oprf_server_eval)) server_pub_key)
    registration ← ended (js.parse finalized)
    password_reg_data ← ended (new_registration_data js registration)
    finalize_password_reg js endpoint password_reg_data
    prints (log (codes "Password registration successful"))
