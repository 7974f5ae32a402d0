-- ===== src/AuthServer/RedisWrapper.antt =====
-- auth-server/rediswrapper/rediswrapper.go.
use plissken.Base.{
  ℕ, List, [], ◌∷◌, ◌++◌, Text, codes, Bool, true, false, text_eq, ◌==◌, if◌then◌else◌,
}
use plissken.Opaque.Go.{Bytes, Go, pure, fail, lift, ◌>>=◌, ◌>>◌}
use plissken.Opaque.Server.{UserRequest, UserEnvelope, Storage}
use plissken.AuthServer.Redis.{Redis, Encodings}

abbrev pub auth_nonces_max_count : ℕ
auth_nonces_max_count = 20

module _ (apptoken username : Text) where
  unfoldable pub user_envelope_key : Text
  user_envelope_key = codes "reg:" ++ apptoken ++ codes ":" ++ username ++ codes ":envelope"

  unfoldable pub user_request_key : Text
  user_request_key = codes "reg:" ++ apptoken ++ codes ":" ++ username ++ codes ":request"

  unfoldable pub auth_nonces_key : Text
  auth_nonces_key = codes "auth:" ++ apptoken ++ codes ":" ++ username ++ codes ":requests"

  unfoldable pub session_token_key : Text
  session_token_key = codes "tokens:" ++ apptoken ++ codes ":" ++ username ++ codes ":token"

unfoldable pub app_secret_key : Text → Text
app_secret_key apptoken = codes "app_secrets:" ++ apptoken ++ codes ":secret"

-- The loop of `HasAuthNonce`.
unfoldable pub any_nonce : (Text → Bytes) → Bytes → List Text → Bool
any_nonce decode_hex nonce [] = false
any_nonce decode_hex nonce (v ∷ t) =
    let rest = any_nonce decode_hex nonce t in if text_eq (decode_hex v) nonce then true else rest

module _ {D : Type 0} (r : Redis D) (c : Encodings) where
  unfoldable pub store_user_request : (apptoken username : Text) → UserRequest → Go D (Unit {0})
  store_user_request apptoken username req = do
    b ← lift (c.marshal_request req)
    r.set (user_request_key apptoken username) b

  unfoldable pub load_user_request : (apptoken username : Text) → Go D UserRequest
  load_user_request apptoken username = do
    str ← r.get (user_request_key apptoken username)
    if text_eq str [] then fail else lift (c.unmarshal_request str)

  unfoldable pub has_user_request : (apptoken username : Text) → Go D Bool
  has_user_request apptoken username = do
    n ← r.exists (user_request_key apptoken username)
    pure (if n == 0 then false else true)

  unfoldable pub store_user_envelope : (apptoken username : Text) → UserEnvelope → Go D (Unit {0})
  store_user_envelope apptoken username req = do
    b ← lift (c.marshal_envelope req)
    r.set (user_envelope_key apptoken username) b

  unfoldable pub load_user_envelope : (apptoken username : Text) → Go D UserEnvelope
  load_user_envelope apptoken username = do
    str ← r.get (user_envelope_key apptoken username)
    lift (c.unmarshal_envelope str)

  unfoldable pub store_session_token :
      (apptoken username session_token : Text) → (expires_at : ℕ) → Go D (Unit {0})
  store_session_token apptoken username session_token expires_at =
      r.set_expiring (session_token_key apptoken username) session_token expires_at

  unfoldable pub has_session_token : (apptoken username session_token : Text) → Go D Bool
  has_session_token apptoken username session_token = do
    t ← r.get (session_token_key apptoken username)
    pure (text_eq t session_token)

  unfoldable pub store_app_secret : (apptoken app_secret : Text) → Go D (Unit {0})
  store_app_secret apptoken app_secret = r.set (app_secret_key apptoken) app_secret

  unfoldable pub has_app_secret : (apptoken app_secret : Text) → Go D Bool
  has_app_secret apptoken app_secret = do
    t ← r.get (app_secret_key apptoken)
    pure (text_eq t app_secret)

  -- The list is cut on a random chance of one in three.
  unfoldable pub store_auth_nonce : (apptoken username : Text) → Bytes → Go D (Unit {0})
  store_auth_nonce apptoken username nonce = do
    r.l_push (auth_nonces_key apptoken username) (c.hex.encode nonce)
    n ← r.intn 3
    if n == 0 then r.l_trim (auth_nonces_key apptoken username) 0 auth_nonces_max_count else pure tt

  unfoldable pub has_auth_nonce : (apptoken username : Text) → Bytes → Go D Bool
  has_auth_nonce apptoken username input_auth_nonce = do
    t ← r.l_range (auth_nonces_key apptoken username) 0 auth_nonces_max_count
    pure (any_nonce c.decode_hex input_auth_nonce t)

  -- `RedisWrapper` as the storage of a server.
  abbrev pub redis_storage : Storage D
  redis_storage = record {
    store_user_request = store_user_request;
    load_user_request = load_user_request;
    has_user_request = has_user_request;
    store_user_envelope = store_user_envelope;
    load_user_envelope = load_user_envelope;
    store_auth_nonce = store_auth_nonce;
    has_auth_nonce = has_auth_nonce;
  }
