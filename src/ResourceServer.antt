-- ===== src/ResourceServer.antt =====
-- example-resource-server/main.go: a server that keeps one text for each user, for those whom the auth
-- server vouches for. Log lines and the headers of CORS are left out.
pub mod Requests
pub mod Interleaved
use plissken.Base.{
  ℕ, Option, none, some, Bool, true, false, List, [], ◌∷◌, ◌++◌, Text, codes, text_eq, ◌==◌,
  if◌then◌else◌,
}
use plissken.Opaque.Go.{Go, lift, provided, ◌>>=◌}

-- The fields of `Config` that the requests need.
pub record Config : Type 0 where
  pub plissken_app_secret : Text
  pub plissken_app_token : Text
  pub plissken_auth_endpoint : Text

pub record PlisskenCheckCredentialsResponseData : Type 0 where
  pub username : Text
  pub created_at : ℕ
  pub sdk_version : Text
  pub expires_at : ℕ

-- What the auth server answers: the status, and what `Decode` makes of the body.
pub record Answer : Type 0 where
  pub status_code : ℕ
  pub decoded : Option PlisskenCheckCredentialsResponseData

-- What the program calls: a request with a query, of a URL and within five seconds, which the world
-- `W` answers; miniredis; and `fmt.Fprintf` with a format and no arguments.
pub record Libraries (W D : Type 0) : Type 0 where
  pub ask : (url : Text) → (query : List (Text × Text)) → Go W Answer
  pub get : Text → Go D Text
  pub set : Text → Text → Go D (Unit {0})
  pub formatted : Text → Text

-- `r.Method`, and the fields of `r.URL.Query()`, empty where there is none.
pub record Request : Type 0 where
  pub method : Text
  pub username : Text
  pub session_token : Text
  pub ts : Text

-- What is written: a status, 200 if it is not set, and a body.
pub record Written : Type 0 where
  pub status_code : ℕ
  pub body : Text

-- The variable `err` of `main`, which all handlers share, and miniredis.
pub record Local (D : Type 0) : Type 0 where
  -- Whether `err != nil`.
  pub err : Bool
  pub store : D

abbrev pub is_error : {A : Type 0} → Option A → Bool
is_error none = true
is_error (some a) = false

abbrev pub just : ℕ → Written
just n = record { status_code = n; body = [] }

unfoldable pub is_options : Request → Bool
is_options req = text_eq req.method (codes "OPTIONS")

-- `fmt.Sprintf("%s:last_haircut", username)`.
unfoldable pub resource_key : Text → Text
resource_key username = username ++ codes ":last_haircut"

module _ {W D : Type 0} (l : Libraries W D) where
  -- The handler of `/health`.
  unfoldable pub handle_health : (git_commit_hash : Text) → Written
  handle_health git_commit_hash = record { status_code = 200; body = l.formatted git_commit_hash }

  unfoldable pub check_credentials :
      Config → (username session_token : Text) → Go W PlisskenCheckCredentialsResponseData
  check_credentials cfg username session_token = do
    resp ← l.ask (cfg.plissken_auth_endpoint ++ codes "/check-credentials") (
        (codes "apptoken", cfg.plissken_app_token)
        ∷ (codes "appsecret", cfg.plissken_app_secret)
        ∷ (codes "username", username)
        ∷ (codes "session_token", session_token)
        ∷ [])
    provided (resp.status_code == 200) (lift resp.decoded)

  -- `_, err = checkCredentials(…)`, in both handlers.
  unfoldable pub check : Config → Request → W × Local D → W × Local D
  check cfg req (w, s) =
      let (r, w') = check_credentials cfg req.username req.session_token w in
      (w', record s { err = is_error r })

  abbrev pub value_of : Option Text → Written
  value_of none = just 500
  value_of (some val) = record { status_code = 200; body = l.formatted val }

  -- `/get-resource`, from the test of `err` on. A new `err` of its own is assigned here.
  unfoldable pub get_rest : Request → W × Local D → Written × (W × Local D)
  get_rest req (w, s) =
      if s.err
      then (just 401, (w, s))
      else let (val, d) = l.get (resource_key req.username) s.store in
        (value_of val, (w, record s { store = d }))

  -- `err = m.Set(…)`, of `/put-resource`.
  unfoldable pub put_value : Request → W × Local D → W × Local D
  put_value req (w, s) =
      let (r, d) = l.set (resource_key req.username) req.ts s.store in
      (w, record { err = is_error r; store = d })

  -- The end of `/put-resource`, from the second test of `err` on.
  unfoldable pub put_rest : W × Local D → Written × (W × Local D)
  put_rest (w, s) = (if s.err then just 500 else just 200, (w, s))

  -- The handlers, when nothing else happens meanwhile.
  unfoldable pub serve_get_resource : Config → Request → W × Local D → Written × (W × Local D)
  serve_get_resource cfg req s =
      if is_options req then (just 200, s) else get_rest req (check cfg req s)

  unfoldable pub serve_put_resource : Config → Request → W × Local D → Written × (W × Local D)
  serve_put_resource cfg req s =
      if is_options req
      then (just 200, s)
      else let s' = check cfg req s in
        if s'.1.err then (just 401, s') else put_rest (put_value req s')
