-- ===== src/System/Agreement.antt =====
-- A registration and authentications, from one end of the system to the other.
use plissken.Base.{◌≡◌, ◌≢◌, refl, subst, ap, ◌∙◌, none, some, [], Option, Text, text_eq}
use plissken.Js.Process.{Engine, ok}
use plissken.Js.Run.{Env, Ends, run}
use plissken.Sdk.Protocol.{run_password_auth, run_password_reg}
use plissken.Opaque.Go.{Bytes, length}
use plissken.Opaque.Primitives.{Primitives, Laws}
use plissken.Opaque.Server.{World, Server, new_server}
use plissken.Opaque.Agreement.{new_server_lem}
use plissken.Common.Documents.{IsAscii}
use plissken.Common.Codec.{HexLaws, GoJson, JsonLaws}
use plissken.AuthServer.Redis.{Redis, RedisLaws, Encodings, EncodingLaws, Value}
use plissken.AuthServer.RedisWrapper.{has_session_token, user_request_key, app_secret_key}
use plissken.AuthServer.Kept.{IsGood, IsKept}
use plissken.System.Environment.{Connected}
use plissken.System.Registration.{run_password_reg-IsRegistered}
use plissken.System.Authentication.{run_password_auth-IsRegistered}

pub own_keys :
    {R : Type 0} (p : Primitives R) (laws : Laws p) (input : Option Bytes) (random after : R)
    (s : Server)
    → new_server p input random ≡ (some s, after)
    → (s.pub_s ≡ p.key_gen s.priv_s) × (length s.priv_s ≡ 32) × (length s.pub_s ≡ 32)
own_keys p laws input random after s e =
    let (s', after', e', own, len) = new_server_lem p laws input random in
    let h : s' ≡ s = cc in
    subst (λ x. (x.pub_s ≡ p.key_gen x.priv_s) × (length x.priv_s ≡ 32) × (length x.pub_s ≡ 32)) h
      (own, len, ap length own ∙ laws.key_gen_length s'.priv_s len)

-- A new server, with a private key of its own or a given one, is connected to lib.ts. A user whose
-- name is not taken registers by `run_password_reg`, with the server's public key in hex, and then
-- `run_password_auth` with the same password returns a session token, twice in a row; none of the
-- calls throws. After each of the two the storage has the new token for the user, and no other. The
-- names and the password are ASCII, the user name and the password are not empty, only lists stand
-- under the keys for nonces, and the libraries, Redis, the encodings and the engine satisfy their
-- laws.
pub run_password_auth-run_password_reg :
    {R D : Type 0} (p : Primitives R) (laws : Laws p) (r : Redis D) (c : Encodings)
    {value : D → Text → Option Value} (rl : RedisLaws r value) (cl : EncodingLaws c)
    (hl : HexLaws c.hex) (g : GoJson) (js : Engine) (jl : JsonLaws js g) (input : Option Bytes)
    (random after : R) (s : Server) {X : Type 0} (env : Env (World R D × X))
    (endpoint a u password : Text) (w : World R D) (z : X)
    → new_server p input random ≡ (some s, after)
    → Connected p r c g js s env endpoint
    → u ≢ []
    → password ≢ []
    → IsAscii a
    → IsAscii u
    → IsAscii password
    → IsGood value w.store
    → value w.store (user_request_key a u) ≡ none
    → (w₁ w₂ w₃ : World R D) × (token token' : Text) × Ends
        (run env (run_password_reg js a u password (c.hex.encode s.pub_s) endpoint) (w, z))
        (ok tt)
        (w₁, z)
      × Ends
          (run env (run_password_auth js a u password (c.hex.encode s.pub_s) endpoint) (w₁, z))
          (ok token)
          (w₂, z)
      × ((t : Text) → has_session_token r c a u t w₂.store ≡ (some (text_eq token t), w₂.store))
      × Ends
          (run env (run_password_auth js a u password (c.hex.encode s.pub_s) endpoint) (w₂, z))
          (ok token')
          (w₃, z)
      × ((t : Text) → has_session_token r c a u t w₃.store ≡ (some (text_eq token' t), w₃.store))
run_password_auth-run_password_reg p laws r c {value = value} rl cl hl g js jl input random after s
      env endpoint a u password w z e net nu np pa pu pp good free =
    let (own, len, lk) = own_keys p laws input random after s e in
    let key = c.hex.encode s.pub_s in
    let kept : IsKept value (λ b. value w.store (app_secret_key b)) w.store = record {
      good = good;
      apps = λ b. refl;
    } in
    let ek = hl.decode-encode s.pub_s in
    let (w₁, e₁, g₁) =
      run_password_reg-IsRegistered p laws r c rl cl hl g js jl s env endpoint net key a u password
        w z ek lk nu np pa pu pp kept free in
    let (t₂, w₂, e₂, has₂, g₂) =
      run_password_auth-IsRegistered p laws r c rl cl hl s g js jl env endpoint net key own len a u
        password w₁ z ek nu np pa pu pp g₁ in
    let (t₃, w₃, e₃, has₃, _) =
      run_password_auth-IsRegistered p laws r c rl cl hl s g js jl env endpoint net key own len a u
        password w₂ z ek nu np pa pu pp g₂ in
    (w₁, w₂, w₃, c.hex.encode t₂, c.hex.encode t₃, e₁, e₂, has₂, e₃, has₃)
