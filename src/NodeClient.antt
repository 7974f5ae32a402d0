-- ===== src/NodeClient.antt =====
-- client-examples/nodejs/src/main.ts: a run of everything against local servers.
pub mod Order
pub mod Completion
use plissken.Base.{Text, codes, [], ◌∷◌, ◌++◌, ◌==◌, if◌then◌else◌}
use plissken.Js.Process.{
  Engine, Process, HttpResponse, Thrown, error, thrown_string, log, error_log, get, put, date_now,
  ended, done, throws, calls, sends, prints, try_catch, ◌>>=◌, ◌>>◌,
}
use plissken.Js.Template.{time_text}
use plissken.Sdk.Protocol.{run_password_auth, run_password_reg}

abbrev pub apptoken : Text
apptoken = codes "my-app-token"

abbrev pub username : Text
username = codes "truebeef"

abbrev pub password : Text
password = codes "bunnyfoofoo"

abbrev pub server_pub_key : Text
server_pub_key = codes "f598d3a5880e70fa7ce187bc79122c4895507194ace8bb3ae992d2bfbb7ed63f"

abbrev pub auth_server_endpoint : Text
auth_server_endpoint = codes "http://127.0.0.1:3223"

abbrev pub resource_server_endpoint : Text
resource_server_endpoint = codes "http://127.0.0.1:3224"

unfoldable pub check_status : HttpResponse → Process (Unit {0})
check_status response =
    if response.status == 200 then done tt else throws (error (codes "Failed to put value"))

-- The resource that is put and read back with a session token.
unfoldable pub use_resource : Engine → Text → Process (Unit {0})
use_resource js session_token = do
  ts ← calls date_now
  response ← sends (
      put (resource_server_endpoint ++ codes "/put-resource") (
        (codes "session_token", session_token)
        ∷ (codes "username", username)
        ∷ (codes "ts", ts)
        ∷ []))
  check_status response
  prints (log (codes "Getting the same value from the resource server"))
  got ← sends (
      get (resource_server_endpoint ++ codes "/get-resource")
        ((codes "session_token", session_token) ∷ (codes "username", username) ∷ []))
  check_status got
  t ← ended (time_text js got.body)
  prints (log (codes "Successfully got last time I cut my hair: " ++ t))

-- What stands in the `try`.
unfoldable pub try_main : Engine → Process (Unit {0})
try_main js = do
  run_password_reg js apptoken username password server_pub_key auth_server_endpoint
  session_token ←
      run_password_auth js apptoken username password server_pub_key auth_server_endpoint
  use_resource js session_token

unfoldable pub main : Engine → Process (Unit {0})
main js =
    try_catch (try_main js)
      (λ e. prints (error_log (codes "From plissken-js-sdk: " ++ thrown_string e)))
