-- ===== src/System/Resources.antt =====
-- What stands between a client, the resource server and the auth server.
use plissken.Base.{ℕ, ◌≡◌, some, List, [], ◌∷◌, ◌++◌, Text, codes, text_eq, if◌then◌else◌}
use plissken.Json.{Json, num}
use plissken.Js.Process.{Result, ok, HttpResponse, get, put, date_now}
use plissken.Js.Run.{Env}
use plissken.Opaque.Primitives.{Primitives}
use plissken.Opaque.Server.{World, Server}
use plissken.AuthServer.Redis.{Redis, Encodings}
use plissken.AuthServer.Handlers.{
  CheckCredentialsRequestData, CheckCredentialsResponseData, credentials, handle_check_credentials,
}
use plissken.ResourceServer.{
  Config, PlisskenCheckCredentialsResponseData, Libraries, Request, Written, Local,
  serve_get_resource, serve_put_resource,
}
use plissken.System.Environment.{response}

-- `r.URL.Query().Get`.
abbrev pub query : Text → List (Text × Text) → Text
query k [] = []
query k ((j, v) ∷ ps) = if text_eq j k then v else query k ps

abbrev pub requested : Text → List (Text × Text) → Request
requested method ps = record {
  method = method;
  username = query (codes "username") ps;
  session_token = query (codes "session_token") ps;
  ts = query (codes "ts") ps;
}

module _ {R D : Type 0} (p : Primitives R) (r : Redis D) (c : Encodings) (s : Server)
    (sdk_version : Text) {M : Type 0} (l : Libraries (World R D) M) (cfg : Config) where
  -- The resource server asks this auth server, at the time that it is there, and is answered in time.
  pub record Asks : Type 0 where
    pub asks :
        (req : CheckCredentialsRequestData) (w : World R D)
        → (created_at : ℕ) × (later : ℕ) × ((v : CheckCredentialsResponseData) (w' : World R D)
            → handle_check_credentials p r c s sdk_version created_at later (some req) w
              ≡ (credentials v, w')
            → (d : PlisskenCheckCredentialsResponseData) × (l.ask
                  (cfg.plissken_auth_endpoint ++ codes "/check-credentials")
                  ((codes "apptoken", req.app_token)
                    ∷ (codes "appsecret", req.app_secret)
                    ∷ (codes "username", req.username)
                    ∷ (codes "session_token", req.session_token)
                    ∷ [])
                  w
                ≡ (some (record { status_code = 200; decoded = some d }), w')))

  -- A client's requests are served by the resource server, one at a time, and it has a clock.
  pub record Provides (env : Env (World R D × Local M)) (endpoint : Text) : Type 0 where
    -- What axios makes of what is written.
    pub received : Written → Result HttpResponse
    pub puts :
        (ps : List (Text × Text)) (v : World R D × Local M)
        → env.http (put (endpoint ++ codes "/put-resource") ps) v ≡ (
          received (serve_put_resource l cfg (requested (codes "PUT") ps) v).0,
          (serve_put_resource l cfg (requested (codes "PUT") ps) v).1,
        )
    pub gets :
        (ps : List (Text × Text)) (v : World R D × Local M)
        → env.http (get (endpoint ++ codes "/get-resource") ps) v ≡ (
          received (serve_get_resource l cfg (requested (codes "GET") ps) v).0,
          (serve_get_resource l cfg (requested (codes "GET") ps) v).1,
        )
    pub received_ok :
        (t : Text)
        → (j : Json) × (received (record { status_code = 200; body = t }) ≡ ok (response 200 j))
    -- A time that the clock gives is read back as a number.
    pub clock :
        (v : World R D × Local M)
        → (ts : Text) × (n : Text) × (env.bindings date_now v ≡ (ok ts, v))
          × (received (record { status_code = 200; body = l.formatted ts })
              ≡ ok (response 200 (num n)))
