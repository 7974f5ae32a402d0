-- ===== src/AuthServer/Credentials.antt =====
-- What a resource server is told of a user's session token.
use plissken.Base.{
  ℕ, ◌+◌, ◌≡◌, ◌↔◌, refl, ap, Option, none, some, Text, codes, Bool-cases, inl, inr, text_eq,
  text_eq_iff, text_eq_refl, if◌then◌else◌,
}
use plissken.Opaque.Primitives.{Primitives}
use plissken.Opaque.Server.{World, Server, of_store}
use plissken.AuthServer.Redis.{Redis, RedisLaws, Encodings, Value, string, list}
use plissken.AuthServer.RedisWrapper.{
  app_secret_key, session_token_key, has_app_secret, has_session_token,
}
use plissken.AuthServer.Handlers.{
  Reply, text, abort, credentials, reply, try, CheckCredentialsRequestData,
  CheckCredentialsResponseData, default_expiry_duration, handle_check_credentials,
}

module _ {R D : Type 0} (p : Primitives R) (r : Redis D) (c : Encodings) (s : Server)
    {value : D → Text → Option Value} (rl : RedisLaws r value) (sdk_version : Text)
    (created_at later : ℕ) (req : CheckCredentialsRequestData) where
  abbrev secret_key : Text
  secret_key = app_secret_key req.app_token

  abbrev token_key : Text
  token_key = session_token_key req.app_token req.username

  abbrev vouched : CheckCredentialsResponseData
  vouched = record {
    username = req.username;
    created_at = created_at;
    sdk_version = sdk_version;
    expires_at = later + default_expiry_duration;
  }

  -- The end of `handle_check_credentials`.
  abbrev check_token : World R D → Reply p.Element × World R D
  check_token =
      try (of_store (has_session_token r c req.app_token req.username req.session_token))
        (abort 500 (some (codes "while checking app secret")))
        λ ok.
          if ok
          then reply (credentials vouched)
          else reply (text 401 (codes "Session token is invalid"))

  token_lem :
      (v : CheckCredentialsResponseData) (w : World R D) (o : Option Value)
      → value w.store token_key ≡ o
      → (check_token w).0 ≡ credentials v
      → o ≡ some (string req.session_token)
  unfolding has_session_token
  token_lem v w (some (string a)) e h =
      let h₁ = rw (rl.get_value token_key a w.store e) at h in
      elim (Bool-cases (text_eq a req.session_token)) [
        | inl same ↦ ap (λ x. some (string x)) ((text_eq_iff a req.session_token).0 same)
        | inr differs ↦ let h₂ = rw differs at h₁ in cc
      ]
  token_lem v w (some (list l)) e h = let h₁ = rw (rl.get_list token_key w.store l e) at h in cc
  token_lem v w none e h = let h₁ = rw (rl.get_none token_key w.store e) at h in cc

  secret_lem :
      (v : CheckCredentialsResponseData) (w : World R D) (o : Option Value)
      → value w.store secret_key ≡ o
      → (handle_check_credentials p r c s sdk_version created_at later (some req) w).0
        ≡ credentials v
      → (o ≡ some (string req.app_secret))
        × (value w.store token_key ≡ some (string req.session_token))
  unfolding handle_check_credentials has_app_secret
  secret_lem v w (some (string a)) e h =
      let h₁ = rw (rl.get_value secret_key a w.store e) at h in
      elim (Bool-cases (text_eq a req.app_secret)) [
        | inl same ↦
            let h₂ = rw same at h₁ in
            (
              ap (λ x. some (string x)) ((text_eq_iff a req.app_secret).0 same),
              token_lem v w (value w.store token_key) refl h₂,
            )
        | inr differs ↦ let h₂ = rw differs at h₁ in cc
      ]
  secret_lem v w (some (list l)) e h = let h₁ = rw (rl.get_list secret_key w.store l e) at h in cc
  secret_lem v w none e h = let h₁ = rw (rl.get_none secret_key w.store e) at h in cc

  -- The server vouches for credentials exactly if the app's secret and the user's session token in the
  -- database are the ones of the request.
  pub handle_check_credentials_lem :
      (w : World R D)
      → ((v : CheckCredentialsResponseData) × ((handle_check_credentials p r c s sdk_version
              created_at later
              (some req)
              w).0
            ≡ credentials v))
        ↔ ((value w.store (app_secret_key req.app_token) ≡ some (string req.app_secret))
            × (value w.store (session_token_key req.app_token req.username)
                ≡ some (string req.session_token)))
  unfolding handle_check_credentials has_app_secret has_session_token
  handle_check_credentials_lem w = (
    λ h. secret_lem h.0 w (value w.store secret_key) refl h.1,
    λ h. (
      vouched,
      rw (
        rl.get_value secret_key req.app_secret w.store h.0,
        text_eq_refl req.app_secret,
        rl.get_value token_key req.session_token w.store h.1,
        text_eq_refl req.session_token,
      ),
    ),
  )
