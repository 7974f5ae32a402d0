-- ===== src/LoginForm.antt =====
-- client-examples/webapp/frontend/src/login_form.js: the React component `MyForm`. This module has
-- its state and what the handlers write into it; a handler is a process (Js.Process) that ends with
-- a change of the state, or rejects.
pub mod Messages
pub mod Handlers
pub mod View
pub mod Page
pub mod Changes
pub mod Invariant
pub mod Reachable
pub mod Outcomes
pub mod Shown
use plissken.Base.{Text, codes, [], ◌++◌, Option, none, some, if◌then◌else◌}
use plissken.Json.Print.{truthy}
use plissken.Js.Process.{
  Engine, Result, ok, HttpResponse, Thrown, thrown_string, is_axios_error, response_of,
}
use plissken.Js.Template.{template}
use plissken.Sdk.Classes.{◌>>=◌}

-- The environment variables that the build puts in.
pub record Config : Type 0 where
  pub hex_encoded_plissken_server_pub_key : Text
  pub plissken_auth_endpoint : Text
  pub resource_server_endpoint : Text

-- `this.state`.
pub record FormState : Type 0 where
  pub username : Text
  pub password : Text
  pub session_token : Text
  pub info_msg : Text
  pub error_msg : Text

abbrev pub default_app_token : Text
default_app_token = codes "my-app-token"

abbrev pub no_session_token : Text
no_session_token = codes "0000000000000000000000000000000000000000000000000000000000000000"

-- The constructor.
unfoldable pub initial_state : FormState
initial_state = record {
  username = [];
  password = [];
  session_token = no_session_token;
  info_msg = [];
  error_msg = [];
}

-- What a handler does to the state when it ends, by `this.setState`.
abbrev pub Update : Type 0
Update = FormState → FormState

-- `this.setState({info_msg: m, error_msg: ""})`.
unfoldable pub show_info : Text → Update
show_info m s = record s { info_msg = m; error_msg = [] }

-- `this.setState({error_msg: m, info_msg: ""})`.
unfoldable pub show_error : Text → Update
show_error m s = record s { info_msg = []; error_msg = m }

module _ (js : Engine) where
  -- `: ${error.response.data}`, where there is any.
  unfoldable pub response_detail : Option HttpResponse → Result Text
  response_detail none = ok []
  response_detail (some r) = if truthy r.body then template js (codes ": ") r.body else ok []

  -- What a `catch` shows, with the prefix for an error of axios and that for any other.
  unfoldable pub failure : (axios_prefix prefix : Text) → Thrown → Result Text
  failure axios_prefix prefix e =
      if is_axios_error e
      then (do
        detail ← response_detail (response_of e)
        ok (axios_prefix ++ thrown_string e ++ detail))
      else ok (prefix ++ thrown_string e)
