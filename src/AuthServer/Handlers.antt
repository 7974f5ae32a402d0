-- ===== src/AuthServer/Handlers.antt =====
-- auth-server/server/handlers.go. A handler takes its bound request, gives its reply, and never fails.
use plissken.Base.{ℕ, ◌+◌, Option, none, some, List, Text, codes, Bool, if◌then◌else◌}
use plissken.Opaque.Go.{Go}
use plissken.Opaque.Primitives.{Primitives}
use plissken.Opaque.Server.{
  World, Server, of_store, handle_new_user_request, store_user_data, handle_new_user_authentication,
  is_registered, is_authenticated,
}
use plissken.Common.Codec.{FinalizePasswordAuthData}
use plissken.Common.Messages.{
  OprfRequestResults, PasswordRegistrationData, StartPasswordAuthServerResp,
}
use plissken.AuthServer.Redis.{Redis, Encodings}
use plissken.AuthServer.RedisWrapper.{
  redis_storage, store_session_token, has_session_token, has_app_secret,
}

-- What a request is for gin: whether `DumpRequest` can read it, and what `MustBindWith` makes of it.
pub record Incoming (A : Type 0) : Type 0 where
  pub dumps : Bool
  pub bound : Option A

pub record CheckCredentialsRequestData : Type 0 where
  pub app_token : Text
  pub app_secret : Text
  pub username : Text
  pub session_token : Text

pub record CheckCredentialsResponseData : Type 0 where
  pub username : Text
  pub created_at : ℕ
  pub sdk_version : Text
  pub expires_at : ℕ

-- What a handler leaves to be written: nothing, a status, a text (`c.String`), an error with or
-- without a text for the client (`c.AbortWithError`), or a value as JSON with status 200.
pub data Reply (E : Type 0) : Type 0 where
  nothing : Reply E
  status : ℕ → Reply E
  text : ℕ → Text → Reply E
  abort : ℕ → Option Text → Reply E
  evaluation : List E → Reply E
  authentication : StartPasswordAuthServerResp E → Reply E
  credentials : CheckCredentialsResponseData → Reply E

-- 15 minutes, in seconds.
abbrev pub default_expiry_duration : ℕ
default_expiry_duration = 900

module _ {W E : Type 0} where
  abbrev pub reply : Reply E → W → Reply E × W
  reply r w = (r, w)

  -- `x, err := m(); if err != nil { … }; k`.
  abbrev pub continue_or :
      {A : Type 0} → Reply E → (A → W → Reply E × W) → Option A → W → Reply E × W
  continue_or failed k none w = (failed, w)
  continue_or failed k (some a) w = k a w

  abbrev pub try : {A : Type 0} → Go W A → Reply E → (A → W → Reply E × W) → W → Reply E × W
  try m failed k w = let (a, v) = m w in continue_or failed k a v

  -- The start of a handler that dumps its request and binds it.
  abbrev pub bind : {A : Type 0} → Incoming A → Reply E → (A → W → Reply E × W) → W → Reply E × W
  bind incoming bad k w =
      if incoming.dumps then continue_or bad k incoming.bound w else (nothing, w)

module _ {R D : Type 0} (p : Primitives R) (r : Redis D) (c : Encodings) (s : Server) where
  unfoldable pub handle_start_password_registration :
      Incoming (OprfRequestResults p) → World R D → Reply p.Element × World R D
  handle_start_password_registration incoming =
      bind incoming (abort 400 (some (codes "JSON body is bad"))) λ req.
        try (is_registered p (redis_storage r c) s req.app_token req.username)
          (abort 400 (some (codes "request failed to evaluate")))
          λ ok.
            if ok
            then reply (text 403 (codes "User already registered"))
            else try
                (handle_new_user_request p (redis_storage r c) s req.app_token req.username
                  req.eval_req)
                (abort 400 (some (codes "request failed to evaluate")))
                λ eval. reply (evaluation eval)

  unfoldable pub handle_finalize_password_registration :
      Incoming PasswordRegistrationData → World R D → Reply p.Element × World R D
  handle_finalize_password_registration incoming =
      bind incoming (abort 400 (some (codes "JSON body is bad"))) λ req.
        try
          (store_user_data p (redis_storage r c) s req.app_token req.username req.pub_u req.env_u
            req.env_u_nonce req.salt)
          (abort 500 (some (codes "Failed to store user data"))) λ _. reply (status 200)

  unfoldable pub handle_start_password_authentication :
      Incoming (OprfRequestResults p) → World R D → Reply p.Element × World R D
  handle_start_password_authentication incoming =
      bind incoming (abort 400 (some (codes "JSON body is bad"))) λ req.
        try
          (handle_new_user_authentication p (redis_storage r c) s req.app_token req.username
            req.eval_req)
          (abort 400 (some (codes "request failed to evaluate")))
          λ resp. reply (
            authentication (record {
              eval = resp.eval;
              env_u = resp.envu;
              env_u_nonce = resp.nonce;
              rwd_u_salt = resp.rwd_u_salt;
              auth_nonce = resp.auth_nonce;
            }))

  unfoldable pub handle_finalize_password_authentication :
      Option FinalizePasswordAuthData → World R D → Reply p.Element × World R D
  handle_finalize_password_authentication bound =
      continue_or (abort 400 none)
        (λ req.
          continue_or (abort 400 (some (codes "session token is bad")))
            (λ b.
              try (is_authenticated p (redis_storage r c) s req.app_token req.username b)
                (abort 400 (some (codes "while checking session token")))
                λ ok.
                  if ok
                  then try
                      (of_store (
                        store_session_token r c req.app_token req.username req.session_token
                          default_expiry_duration))
                      (abort 500 (some (codes "while saving session token")))
                      (λ _. reply (status 200))
                  else reply (text 401 (codes "Session token is invalid")))
            (c.hex.decode req.session_token))
        bound

  -- `created_at` and `later` are what `time.Now` gives, in seconds.
  unfoldable pub handle_check_credentials :
      (sdk_version : Text) (created_at later : ℕ)
      → Option CheckCredentialsRequestData
      → World R D
      → Reply p.Element × World R D
  handle_check_credentials sdk_version created_at later bound =
      continue_or (abort 400 none)
        (λ req.
          try (of_store (has_app_secret r c req.app_token req.app_secret))
            (abort 500 (some (codes "while checking app secret")))
            λ ok.
              if ok
              then try
                  (of_store (has_session_token r c req.app_token req.username req.session_token))
                  (abort 500 (some (codes "while checking app secret")))
                  (λ ok.
                    if ok
                    then reply (
                        credentials (record {
                          username = req.username;
                          created_at = created_at;
                          sdk_version = sdk_version;
                          expires_at = later + default_expiry_duration;
                        }))
                    else reply (text 401 (codes "Session token is invalid")))
              else reply (text 401 (codes "App secret is invalid")))
        bound
