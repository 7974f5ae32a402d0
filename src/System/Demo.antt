-- ===== src/System/Demo.antt =====
-- The Node.js client against all servers.
use plissken.Base.{
  ◌+◌, ◌≡◌, ◌≢◌, refl, none, some, true, false, [], ◌∷◌, Option, Text, codes, text_eq, text_eq_refl,
  arith, Bool, ◌&&◌, ltb, Bool-cases, inl, inr, ◌∙◌,
}
use plissken.Js.Process.{Engine, ok}
use plissken.Js.Run.{Env, Ends, run}
use plissken.Json.Print.{to_string}
use plissken.Js.Template.{time_text}
use plissken.Js.Ends.{Ends-bind}
use plissken.Opaque.Go.{Bytes}
use plissken.Opaque.Primitives.{Primitives, Laws}
use plissken.Opaque.Server.{World, Server, new_server}
use plissken.Common.Documents.{IsAscii}
use plissken.Common.Codec.{HexLaws, GoJson, JsonLaws}
use plissken.AuthServer.Redis.{Redis, RedisLaws, Encodings, EncodingLaws, Value, string}
use plissken.AuthServer.RedisWrapper.{
  app_secret_key, user_request_key, has_app_secret, has_session_token,
}
use plissken.AuthServer.Handlers.{handle_check_credentials}
use plissken.AuthServer.Kept.{IsGood, IsKept}
use plissken.ResourceServer.{
  Config, PlisskenCheckCredentialsResponseData, Libraries, Local, is_options, check_credentials,
}
use plissken.ResourceServer.Requests.{StoreLaws, serve_get_resource-serve_put_resource}
use plissken.NodeClient.{
  apptoken, username, password, server_pub_key, auth_server_endpoint, resource_server_endpoint,
  check_status, use_resource, try_main, main,
}
use plissken.NodeClient.Order.{IsDemo}
use plissken.NodeClient.Completion.{main-IsDemo}
use plissken.System.Environment.{Connected}
use plissken.System.Resources.{Asks, Provides, requested}
use plissken.System.Registration.{run_password_reg-IsRegistered}
use plissken.System.Authentication.{run_password_auth-IsRegistered}
use plissken.System.Agreement.{own_keys}

module _ {R D : Type 0} (p : Primitives R) (r : Redis D) (c : Encodings)
    {value : D → Text → Option Value} (rl : RedisLaws r value) (s : Server) (sdk_version : Text)
    {M : Type 0} (l : Libraries (World R D) M) (cfg : Config)
    (asks : Asks p r c s sdk_version l cfg) where
  check_credentials_lem :
      (u token : Text) (w : World R D)
      → value w.store (app_secret_key cfg.plissken_app_token)
        ≡ some (string cfg.plissken_app_secret)
      → has_session_token r c cfg.plissken_app_token u token w.store ≡ (some true, w.store)
      → (d : PlisskenCheckCredentialsResponseData) × (check_credentials l cfg u token w
          ≡ (some d, w))
  unfolding check_credentials handle_check_credentials has_app_secret
  check_credentials_lem u token w secret has =
      let (created_at, later, answers) =
        asks.asks
          (record {
            app_token = cfg.plissken_app_token;
            app_secret = cfg.plissken_app_secret;
            username = u;
            session_token = token;
          })
          w in
      let (d, e) =
        answers
          (record {
            username = u;
            created_at = created_at;
            sdk_version = sdk_version;
            expires_at = later + 900;
          })
          w
          (rw (
            rl.get_value (app_secret_key cfg.plissken_app_token) cfg.plissken_app_secret w.store
                secret,
            text_eq_refl cfg.plissken_app_secret,
            has,
          )) in
      (d, rw e)

  module _ (store_laws : StoreLaws l) (js : Engine) (env : Env (World R D × Local M))
      (provides : Provides p r c s sdk_version l cfg env resource_server_endpoint) where
    use_resource-Ends :
        (token : Text) (w : World R D) (x : Local M)
        → value w.store (app_secret_key cfg.plissken_app_token)
          ≡ some (string cfg.plissken_app_secret)
        → has_session_token r c cfg.plissken_app_token username token w.store ≡ (some true, w.store)
        → (x' : Local M) × Ends (run env (use_resource js token) (w, x)) (ok tt) (w, x')
    unfolding run use_resource check_status is_options text_eq time_text to_string
    use_resource-Ends token w x secret has =
        let (d, e) = check_credentials_lem username token w secret has in
        let (ts, n, clock, r₂) = provides.clock (w, x) in
        let puts =
          (codes "session_token", token) ∷ (codes "username", username) ∷ (codes "ts", ts) ∷ [] in
        let gets = (codes "session_token", token) ∷ (codes "username", username) ∷ [] in
        let (m, e₁, e₂) =
          serve_get_resource-serve_put_resource l cfg store_laws (requested (codes "PUT") puts)
            (requested (codes "GET") gets) w w w x d d refl refl refl e e in
        let (_, r₁) = provides.received_ok [] in
        let x' : Local M = record { err = false; store = m } in
        (
          x',
          rw (clock, provides.puts puts (w, x), e₁, r₁, provides.gets gets (w, x'), e₂, r₂)
              (record { result = refl; world = refl }),
        )

abbrev is_ascii : Text → Bool
is_ascii [] = true
is_ascii (c ∷ t) = ltb c 128 && is_ascii t

is_ascii-IsAscii : (t : Text) → is_ascii t ≡ true → IsAscii t
is_ascii-IsAscii [] e = tt
is_ascii-IsAscii (c ∷ t) e = elim (Bool-cases (ltb c 128)) [
  | inl small ↦ (ground arith, is_ascii-IsAscii t (rw small at e))
  | inr large ↦ let h = rw large at e in cc
]

-- The Node.js client, in an environment in which the bindings and the auth server are those of this
-- repository, with a new server whose public key is the client's, the resource server asks this auth
-- server, and the client's user is not yet registered, meets no error: its run is a registration, an
-- authentication that gives a token, and a put and a get of the resource with this token, each
-- answered with status 200. The resource server has the client's app token and the app's secret of the
-- auth server; only lists stand under the keys for nonces; the libraries, Redis, miniredis, the
-- encodings and the engine satisfy their laws.
pub main-new_server :
    {R D : Type 0} (p : Primitives R) (laws : Laws p) (r : Redis D) (c : Encodings)
    {value : D → Text → Option Value} (rl : RedisLaws r value) (cl : EncodingLaws c)
    (hl : HexLaws c.hex) (g : GoJson) (js : Engine) (jl : JsonLaws js g) (input : Option Bytes)
    (random after : R) (s : Server) (sdk_version : Text) {M : Type 0} (l : Libraries (World R D) M)
    (cfg : Config) (env : Env (World R D × Local M)) (w : World R D) (x : Local M)
    → new_server p input random ≡ (some s, after)
    → c.hex.decode server_pub_key ≡ some s.pub_s
    → Connected p r c g js s env auth_server_endpoint
    → Asks p r c s sdk_version l cfg
    → StoreLaws l
    → Provides p r c s sdk_version l cfg env resource_server_endpoint
    → cfg.plissken_app_token ≡ apptoken
    → value w.store (app_secret_key apptoken) ≡ some (string cfg.plissken_app_secret)
    → IsGood value w.store
    → value w.store (user_request_key apptoken username) ≡ none
    → ((run env (main js) (w, x)).result ≡ ok tt) × IsDemo js (run env (main js) (w, x)).events
unfolding try_main
main-new_server p laws r c {value = value} rl cl hl g js jl input random after s sdk_version l cfg
      env w x e ek net asks store_laws provides same secret good free =
    let (own, len, lk) = own_keys p laws input random after s e in
    let kept : IsKept value (λ b. value w.store (app_secret_key b)) w.store = record {
      good = good;
      apps = λ b. refl;
    } in
    let nu : username ≢ [] = ground arith in
    let np : password ≢ [] = ground arith in
    let pa = is_ascii-IsAscii apptoken refl in
    let pu = is_ascii-IsAscii username refl in
    let pp = is_ascii-IsAscii password refl in
    let (w₁, e₁, g₁) =
      run_password_reg-IsRegistered p laws r c rl cl hl g js jl s env auth_server_endpoint net
        server_pub_key apptoken username password w x ek lk nu np pa pu pp kept free in
    let (token, w₂, e₂, has, g₂) =
      run_password_auth-IsRegistered p laws r c rl cl hl s g js jl env auth_server_endpoint net
        server_pub_key own len apptoken username password w₁ x ek nu np pa pu pp g₁ in
    let t = c.hex.encode token in
    let (x', e₃) =
      use_resource-Ends p r c rl s sdk_version l cfg asks store_laws js env provides t w₂ x
        (rw same (g₂.good.apps apptoken ∙ secret)) (rw same (rw (text_eq_refl t) at (has t))) in
    let ended =
      Ends-bind env _ _ tt (ok tt) (w, x) (w₁, x) (w₂, x') e₁
        (Ends-bind env _ (use_resource js) t (ok tt) (w₁, x) (w₂, x) (w₂, x') e₂ e₃) in
    main-IsDemo js env (w, x) ended.result
