-- ===== src/System/Refusals.antt =====
-- What lib.ts throws where the auth server refuses.
use plissken.Base.{◌≡◌, ◌≢◌, refl, none, some, [], ◌∷◌, ◌++◌, Option, Text, codes, arith}
use plissken.Json.{str}
use plissken.Js.Process.{Engine, Thrown, throw, error, axios_error, response_of}
use plissken.Json.Print.{to_string, decimal}
use plissken.Js.Template.{template}
use plissken.Js.Run.{Env, Ends, run}
use plissken.Sdk.Classes.{request_json}
use plissken.Sdk.Requests.{start_password_auth, start_password_reg, rethrown, bad_response}
use plissken.Sdk.Protocol.{run_password_auth, run_password_reg}
use plissken.Opaque.Primitives.{Primitives, Laws}
use plissken.Opaque.Server.{World, Server}
use plissken.Common.Documents.{IsAscii}
use plissken.Common.Codec.{HexLaws, GoJson, JsonLaws}
use plissken.AuthServer.Redis.{Redis, RedisLaws, Encodings, Value}
use plissken.AuthServer.RedisWrapper.{user_request_key, user_envelope_key}
use plissken.AuthServer.Middleware.{handle_errors}
use plissken.System.Environment.{Connected, response}
use plissken.System.Server.{start_registration-taken, start_authentication-unknown}
use plissken.System.Client.{make_request-Made}

-- What the client is told if a request is not evaluated.
abbrev pub not_evaluated : Text
not_evaluated = codes "Error: request failed to evaluate" ++ (10 ∷ [])

module _ {R D : Type 0} (p : Primitives R) (laws : Laws p) (r : Redis D) (c : Encodings)
    {value : D → Text → Option Value} (rl : RedisLaws r value) (hl : HexLaws c.hex) (g : GoJson)
    (js : Engine) (jl : JsonLaws js g) (s : Server) {X : Type 0} (env : Env (World R D × X))
    (endpoint : Text) (net : Connected p r c g js s env endpoint) where
  -- For a user name that is taken, with a registration started or finished, and with any key,
  -- `run_password_reg` throws the error with the server's status 403 and text, and the server's
  -- storage stays as it was. The names and the password are ASCII, the user name and the password not
  -- empty, the libraries, Redis, the encodings and the engine satisfy their laws, and the engine does
  -- not parse the text as JSON.
  pub run_password_reg-taken :
      (a u password key : Text) (w : World R D) (z : X) (v : Value) (e : Thrown)
      → u ≢ []
      → password ≢ []
      → IsAscii a
      → IsAscii u
      → IsAscii password
      → js.parse (codes "User already registered") ≡ throw e
      → value w.store (user_request_key a u) ≡ some v
      → (random : R) × Ends
          (run env (run_password_reg js a u password key endpoint) (w, z))
          (throw (
            error (
              codes
                "/start_password_registration route returned bad response: 403: User already registered")))
          (record { random = random; store = w.store }, z)
  unfolding run run_password_reg start_password_reg rethrown response_of bad_response template
      to_string decimal
  run_password_reg-taken a u password key w z v e nu np pa pu pp not_json taken =
      let x = make_request-Made p laws c.hex hl js g jl a u password w.random nu np pa pu in
      let w₁ : World R D = record { random = x.after; store = w.store } in
      let body = js.stringify (request_json x.request) in
      let (m, refused) =
        net.received_text 403 (codes "User already registered") e (omega arith) not_json in
      (
        x.after,
        rw
            (
              net.returns _ w z _ _ (pa, pu, pp) x.returns,
              x.parses,
              x.reads,
              net.posts (codes "/start_password_registration") body w₁ z,
              start_registration-taken p r c g s body w₁ w₁ rl _ v x.sees taken,
              refused,
            )
            (record { result = refl; world = refl }),
      )

  -- For a user without an envelope, with any key, `run_password_auth` throws the axios error with the
  -- server's status 400 and text, and the server's storage stays as it was. The names and the password
  -- are ASCII, the user name and the password not empty, the libraries, Redis, the encodings and the
  -- engine satisfy their laws, and the engine does not parse the text as JSON.
  pub run_password_auth-unknown :
      (a u password key : Text) (w : World R D) (z : X) (e : Thrown)
      → u ≢ []
      → password ≢ []
      → IsAscii a
      → IsAscii u
      → IsAscii password
      → js.parse not_evaluated ≡ throw e
      → value w.store (user_envelope_key a u) ≡ none
      → (random : R) × (message : Text) × Ends
          (run env (run_password_auth js a u password key endpoint) (w, z))
          (throw (axios_error message (some (response 400 (str not_evaluated)))))
          (record { random = random; store = w.store }, z)
  unfolding run run_password_auth start_password_auth handle_errors
  run_password_auth-unknown a u password key w z e nu np pa pu pp not_json unknown =
      let x = make_request-Made p laws c.hex hl js g jl a u password w.random nu np pa pu in
      let w₁ : World R D = record { random = x.after; store = w.store } in
      let body = js.stringify (request_json x.request) in
      let (m, refused) =
        net.received_abort 400 (codes "request failed to evaluate") e (omega arith) not_json in
      (
        x.after,
        m,
        rw
            (
              net.returns _ w z _ _ (pa, pu, pp) x.returns,
              x.parses,
              x.reads,
              net.posts (codes "/start_password_authentication") body w₁ z,
              start_authentication-unknown p r c g s body w₁ w₁ rl _ x.sees unknown,
              refused,
            )
            (record { result = refl; world = refl }),
      )
