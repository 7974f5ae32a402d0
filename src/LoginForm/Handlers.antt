-- ===== src/LoginForm/Handlers.antt =====
-- `handleLoginBtn`, `handleRegisterBtn`, `handlePutResourceBtn` and `handleGetResourceBtn`. A
-- handler reads the state when it is called, and changes what the state is by when it ends.
use plissken.Base.{Text, codes, [], ◌∷◌, ◌++◌, ◌==◌, if◌then◌else◌}
use plissken.Js.Process.{
  Engine, Process, HttpResponse, Thrown, error, thrown_string, error_log, get, put, date_now, ended,
  done, throws, calls, sends, prints, try_catch, ◌>>=◌, ◌>>◌,
}
use plissken.Js.Template.{time_text}
use plissken.Sdk.Protocol.{run_password_auth, run_password_reg}
use plissken.LoginForm.{
  Config, FormState, Update, default_app_token, show_info, show_error, failure,
}

-- The `catch` of each handler.
unfoldable pub report : Engine → (axios_prefix prefix : Text) → Thrown → Process Update
report js axios_prefix prefix e = do
  prints (error_log (codes "From plissken-js-sdk: " ++ thrown_string e))
  m ← ended (failure js axios_prefix prefix e)
  done (show_error m)

-- `this.setState({session_token})`, and then the message.
unfoldable pub logged_in : Text → Update
logged_in session_token s =
    show_info (codes "Successfully logged in") (record s { session_token = session_token })

unfoldable pub check_status : HttpResponse → Process HttpResponse
check_status response =
    if response.status == 200 then done response else throws (error (codes "Failed to put value"))

module _ (js : Engine) (cfg : Config) where
  -- What stands in the `try` of each handler.
  unfoldable pub try_login : FormState → Process Update
  try_login s = do
    session_token ←
        run_password_auth js default_app_token s.username s.password
          cfg.hex_encoded_plissken_server_pub_key cfg.plissken_auth_endpoint
    done (logged_in session_token)

  unfoldable pub try_register : FormState → Process Update
  try_register s = do
    run_password_reg js default_app_token s.username s.password
        cfg.hex_encoded_plissken_server_pub_key cfg.plissken_auth_endpoint
    done (show_info (codes "Successfully registered"))

  unfoldable pub try_put_resource : FormState → Process Update
  try_put_resource s = do
    ts ← calls date_now
    response ← sends (
        put (cfg.resource_server_endpoint ++ codes "/put-resource") (
          (codes "session_token", s.session_token)
          ∷ (codes "username", s.username)
          ∷ (codes "ts", ts)
          ∷ []))
    check_status response
    done (show_info (codes "Updated last time I cut my hair"))

  unfoldable pub try_get_resource : FormState → Process Update
  try_get_resource s = do
    response ← sends (
        get (cfg.resource_server_endpoint ++ codes "/get-resource")
          ((codes "session_token", s.session_token) ∷ (codes "username", s.username) ∷ []))
    check_status response
    t ← ended (time_text js response.body)
    done (show_info (codes "Successfully got last time I cut my hair: " ++ t))

  unfoldable pub handle_login : FormState → Process Update
  handle_login s =
      try_catch (try_login s) (report js (codes "Failed to register: ") (codes "Failed to login: "))

  unfoldable pub handle_register : FormState → Process Update
  handle_register s =
      try_catch (try_register s)
        (report js (codes "Failed to register: ") (codes "Failed to register: "))

  unfoldable pub handle_put_resource : FormState → Process Update
  handle_put_resource s =
      try_catch (try_put_resource s)
        (report js (codes "Failed to put resource: ") (codes "Failed: "))

  unfoldable pub handle_get_resource : FormState → Process Update
  handle_get_resource s =
      try_catch (try_get_resource s)
        (report js (codes "Failed to get resource: ") (codes "Failed: "))
