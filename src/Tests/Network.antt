-- ===== src/Tests/Network.antt =====
-- All parts together over small libraries: the resource server and the network.
use plissken.Base.{
  ℕ, ◌≡◌, ◌≢◌, refl, sym, ap, ◌∙◌, List, ◌==◌, if◌then◌else◌, false, Option, none, some, Text,
  codes, text_eq, ltb, [], ◌∷◌,
}
use plissken.Json.{Json, null, num, str}
use plissken.Js.Process.{
  Result, ok, throw, error, axios_error, HttpResponse, Request, get, post, Call, make_oprf_request,
  finalize_password_registration, finalize_password_authentication, date_now,
}
use plissken.Js.Process.{put as put_request}
use plissken.Js.Run.{Env}
use plissken.Opaque.Go.{Bytes, drop}
use plissken.Opaque.Slices.{drop-append}
use plissken.Opaque.Server.{World}
use plissken.Common.Messages.{marshal_evaluation, marshal_start}
use plissken.AuthServer.Handlers.{
  Reply, nothing, status, text, abort, evaluation, authentication, credentials,
  CheckCredentialsRequestData, CheckCredentialsResponseData, handle_check_credentials,
}
use plissken.AuthServer.Middleware.{aborted}
use plissken.AuthServer.Router.{serve_post}
use plissken.Bindings.{exports}
use plissken.System.Environment.{Connected, response}
use plissken.Tests.Opaque.{toy}
use plissken.Tests.AuthServer.{Database, small, small-RedisLaws, empty}
use plissken.Tests.Json.{small_engine, small_json}
use plissken.NodeClient
use plissken.ResourceServer.{
  Config, PlisskenCheckCredentialsResponseData, Answer, Libraries, Written, Local,
  serve_get_resource, serve_put_resource,
}
use plissken.ResourceServer.Requests.{StoreLaws}
use plissken.System.Resources.{Asks, Provides, query, requested}
use plissken.Tests.Local.{server, local_hex, encodings}

abbrev pub failed : Result HttpResponse
failed = throw (axios_error (codes "Network Error") none)

-- A status of an error is thrown, with the response.
abbrev pub refused : ℕ → Json → Result HttpResponse
refused n j = throw (axios_error (codes "Request failed with status code") (some (response n j)))

-- A text that is not JSON stays as it is.
abbrev pub body_of : Text → Result Json → HttpResponse
body_of t (ok j) = response 200 j
body_of t (throw e) = response 200 (str t)

abbrev pub parsed : Option Text → Result HttpResponse
parsed none = failed
parsed (some t) = ok (body_of t (small_engine.parse t))

abbrev pub received : Reply Bytes → Result HttpResponse
received nothing = failed
received (status n) = ok (response n null)
received (text n t) = refused n (str t)
received (abort n none) = refused n null
received (abort n (some m)) = refused (aborted n m).0 (str (aborted n m).1)
received (evaluation els) = parsed (marshal_evaluation toy local_hex small_json els)
received (authentication resp) = parsed (marshal_start toy local_hex small_json resp)
received (credentials d) = failed

abbrev pub data_of : CheckCredentialsResponseData → PlisskenCheckCredentialsResponseData
data_of d = record {
  username = d.username;
  created_at = d.created_at;
  sdk_version = d.sdk_version;
  expires_at = d.expires_at;
}

abbrev pub answer_of : Reply Bytes → Answer
answer_of (credentials d) = record { status_code = 200; decoded = some (data_of d) }
answer_of _ = record { status_code = 401; decoded = none }

abbrev pub asked : List (Text × Text) → CheckCredentialsRequestData
asked ps = record {
  app_token = query (codes "apptoken") ps;
  app_secret = query (codes "appsecret") ps;
  username = query (codes "username") ps;
  session_token = query (codes "session_token") ps;
}

abbrev pub libraries : Libraries (World ℕ Database) Database
libraries = record {
  ask = λ url ps w.
      let (a, w') =
        handle_check_credentials toy small encodings server (codes "1.0") 0 0 (some (asked ps)) w in
      (some (answer_of a), w');
  get = small.get;
  set = small.set;
  formatted = λ t. t;
}

pub libraries-StoreLaws : StoreLaws libraries
libraries-StoreLaws = record {
  set_some = λ k v d.
      let (d', e, h, _) = small-RedisLaws.set_value k v d in
      (d', e, small-RedisLaws.get_value k v d' h);
}

abbrev pub config : Config
config = record {
  plissken_app_secret = codes "secret";
  plissken_app_token = NodeClient.apptoken;
  plissken_auth_endpoint = codes "http://127.0.0.1:3223";
}

pub libraries-Asks : Asks toy small encodings server (codes "1.0") libraries config
unfolding text_eq
libraries-Asks = record { asks = λ req w. (0, 0, λ v w' e. (data_of v, rw e)) }

abbrev pub All : Type 0
All = World ℕ Database × Local Database

-- A text that begins with a digit is taken for a number.
abbrev pub data_read : Text → Json
data_read [] = str []
data_read (c ∷ t) = if ltb c 58 then num (c ∷ t) else str (c ∷ t)

abbrev pub written : Written → Result HttpResponse
written a =
    if a.status_code == 200
    then ok (response 200 (data_read a.body))
    else refused a.status_code (str a.body)

abbrev pub answered : Written × All → Result HttpResponse × All
answered (a, v) = (written a, v)

-- Each request that posts goes to the auth server, each other one to the resource server.
abbrev pub served : Request → All → Result HttpResponse × All
served (post url body) (w, x) =
    let (a, w') = serve_post toy small encodings small_json server (drop 21 url) body w in
    (received a, (w', x))
served (get url ps) v =
    answered (serve_get_resource libraries config (requested (codes "GET") ps) v)
served (put_request url ps) v =
    answered (serve_put_resource libraries config (requested (codes "PUT") ps) v)

abbrev pub ended : Option Text → ℕ → Database → Local Database → Result Text × All
ended (some t) n d x = (ok t, (record { random = n; store = d }, x))
ended none n d x = (throw (error (codes "panic")), (record { random = n; store = d }, x))

abbrev pub exported : Call → All → Result Text × All
exported c (w, x) = let (t, n) = exports toy local_hex small_json c w.random in ended t n w.store x

abbrev pub called : Call → All → Result Text × All
called (make_oprf_request a u p) v = exported (make_oprf_request a u p) v
called (finalize_password_registration a u r e k) v =
    exported (finalize_password_registration a u r e k) v
called (finalize_password_authentication u r e k) v =
    exported (finalize_password_authentication u r e k) v
called date_now v = (ok (codes "1650000000000"), v)

abbrev pub local : Env All
local = record { http = served; bindings = called }

date_now_lem : (n : ℕ) → exports toy local_hex small_json date_now n ≡ (none, n)
unfolding exports
date_now_lem n = refl

none_lem : (t : Text) → ◌≢◌ {A = Option Text} none (some t)
none_lem t e = cc

exported-returns :
    (c : Call) (w : World ℕ Database) (x : Local Database) (t : Text) (n : ℕ)
    → exports toy local_hex small_json c w.random ≡ (some t, n)
    → called c (w, x) ≡ (ok t, (record { random = n; store = w.store }, x))
exported-returns (make_oprf_request a u p) w x t n e = rw e
exported-returns (finalize_password_registration a u r q k) w x t n e = rw e
exported-returns (finalize_password_authentication u r q k) w x t n e = rw e
exported-returns date_now w x t n e =
    absurd (none_lem t (ap (λ z. z.0) (sym (date_now_lem w.random)) ∙ ap (λ z. z.0) e))

pub local-Connected :
    Connected toy small encodings small_json small_engine server local
      NodeClient.auth_server_endpoint
local-Connected = record {
  received = received;
  posts = λ path body w x. rw (drop-append 21 NodeClient.auth_server_endpoint path refl);
  received_status = (null, refl);
  received_evaluation = λ els t j e h. rw (e, h);
  received_authentication = λ resp t j e h. rw (e, h);
  received_text = λ n t e _ _. (codes "Request failed with status code", refl);
  received_abort = λ n m e _ _. (codes "Request failed with status code", refl);
  returns = λ c w x t n _ e. exported-returns c w x t n e;
}

pub local-Provides :
    Provides toy small encodings server
      (codes "1.0")
      libraries
      config
      local
      NodeClient.resource_server_endpoint
local-Provides = record {
  received = written;
  puts = λ ps v. refl;
  gets = λ ps v. refl;
  received_ok = λ t. (data_read t, refl);
  clock = λ v. (codes "1650000000000", codes "1650000000000", refl, refl);
}

abbrev pub nothing_put : Local Database
nothing_put = record { err = false; store = empty }

abbrev pub world : World ℕ Database
world = record { random = 8; store = empty }
