-- ===== src/Tests/System.antt =====
-- The theorems on all parts together, at small libraries.
use plissken.Base.{ℕ, ◌≡◌, refl, sym, none, some, [], Text, codes, text_eq, arith}
use plissken.Json.{str}
use plissken.Js.Process.{ok, throw, error, axios_error, syntax_error}
use plissken.Js.Run.{Ends, run}
use plissken.Sdk.Protocol.{run_password_auth, run_password_reg}
use plissken.Opaque.Server.{World}
use plissken.Common.Documents.{IsAscii}
use plissken.AuthServer.Redis.{string}
use plissken.AuthServer.RedisWrapper.{
  has_session_token, user_request_key, auth_nonces_key, app_secret_key,
}
use plissken.AuthServer.Kept.{IsGood, app_secret_key-nonces_key}
use plissken.NodeClient
use plissken.NodeClient.Order.{IsDemo}
use plissken.System.Environment.{response}
use plissken.System.Agreement.{run_password_auth-run_password_reg}
use plissken.System.Refusals.{not_evaluated, run_password_reg-taken, run_password_auth-unknown}
use plissken.System.Demo.{main-new_server}
use plissken.Tests.Opaque.{toy, toy-Laws}
use plissken.Tests.AuthServer.{Database, put, put-same, put-other, small, small-RedisLaws, empty}
use plissken.Tests.Json.{small_engine, small_json, small-JsonLaws}
use plissken.Tests.Local.{
  server, new_server_7, local_hex, local-HexLaws, encodings, encodings-EncodingLaws,
}
use plissken.Tests.Network.{
  libraries, libraries-StoreLaws, config, libraries-Asks, local, local-Connected, local-Provides,
  nothing_put, world,
}

app-IsAscii : IsAscii (codes "app")
app-IsAscii = (omega arith, (omega arith, (omega arith, tt)))

ann-IsAscii : IsAscii (codes "ann")
ann-IsAscii = (omega arith, (omega arith, (omega arith, tt)))

run_password_auth-run_password_reg_example :
    (w₁ w₂ w₃ : World ℕ Database) × (token token' : Text) × Ends
      (run local
        (run_password_reg small_engine
          (codes "app")
          (codes "ann")
          (codes "ann")
          (local_hex.encode server.pub_s)
          NodeClient.auth_server_endpoint)
        (world, nothing_put))
      (ok tt)
      (w₁, nothing_put)
    × Ends
        (run local
          (run_password_auth small_engine
            (codes "app")
            (codes "ann")
            (codes "ann")
            (local_hex.encode server.pub_s)
            NodeClient.auth_server_endpoint)
          (w₁, nothing_put))
        (ok token)
        (w₂, nothing_put)
    × ((t : Text)
        → has_session_token small encodings (codes "app") (codes "ann") t w₂.store
          ≡ (some (text_eq token t), w₂.store))
    × Ends
        (run local
          (run_password_auth small_engine
            (codes "app")
            (codes "ann")
            (codes "ann")
            (local_hex.encode server.pub_s)
            NodeClient.auth_server_endpoint)
          (w₂, nothing_put))
        (ok token')
        (w₃, nothing_put)
    × ((t : Text)
        → has_session_token small encodings (codes "app") (codes "ann") t w₃.store
          ≡ (some (text_eq token' t), w₃.store))
run_password_auth-run_password_reg_example =
    run_password_auth-run_password_reg toy toy-Laws small encodings small-RedisLaws
      encodings-EncodingLaws local-HexLaws small_json small_engine small-JsonLaws none 7 8 server
      local NodeClient.auth_server_endpoint (codes "app") (codes "ann") (codes "ann") world
      nothing_put new_server_7 local-Connected (ground arith) (ground arith) app-IsAscii ann-IsAscii
      ann-IsAscii (record { nonces = λ a u. ([], refl) }) refl

-- A database in which one registration has been started.
abbrev taken : Database
taken = put (user_request_key (codes "app") (codes "ann")) (some (string (codes "{}"))) empty

run_password_reg-taken_example :
    (random : ℕ) × Ends
      (run local
        (run_password_reg small_engine
          (codes "app")
          (codes "ann")
          (codes "ann")
          (codes "key")
          NodeClient.auth_server_endpoint)
        (record { random = 8; store = taken }, nothing_put))
      (throw (
        error (
          codes
            "/start_password_registration route returned bad response: 403: User already registered")))
      (record { random = random; store = taken }, nothing_put)
run_password_reg-taken_example =
    run_password_reg-taken toy toy-Laws small encodings small-RedisLaws local-HexLaws small_json
      small_engine small-JsonLaws server local NodeClient.auth_server_endpoint local-Connected
      (codes "app") (codes "ann") (codes "ann") (codes "key") (record { random = 8; store = taken })
      nothing_put (string (codes "{}")) (syntax_error (codes "Unexpected token in JSON"))
      (ground arith) (ground arith) app-IsAscii ann-IsAscii ann-IsAscii refl (put-same _ _ empty)

run_password_auth-unknown_example :
    (random : ℕ) × (message : Text) × Ends
      (run local
        (run_password_auth small_engine
          (codes "app")
          (codes "ann")
          (codes "ann")
          (codes "key")
          NodeClient.auth_server_endpoint)
        (world, nothing_put))
      (throw (axios_error message (some (response 400 (str not_evaluated)))))
      (record { random = random; store = empty }, nothing_put)
run_password_auth-unknown_example =
    run_password_auth-unknown toy toy-Laws small encodings small-RedisLaws local-HexLaws small_json
      small_engine small-JsonLaws server local NodeClient.auth_server_endpoint local-Connected
      (codes "app") (codes "ann") (codes "ann") (codes "key") world nothing_put
      (syntax_error (codes "Unexpected token in JSON")) (ground arith) (ground arith) app-IsAscii
      ann-IsAscii ann-IsAscii refl refl

-- The database with the client's app.
abbrev prepared : Database
prepared = put (app_secret_key NodeClient.apptoken) (some (string (codes "secret"))) empty

prepared-IsGood : IsGood (λ (d : Database). d) prepared
prepared-IsGood = record {
  nonces = λ a u. (
    [],
    rw (
        put-other _ (some (string (codes "secret"))) empty (auth_nonces_key a u)
          (λ e. app_secret_key-nonces_key NodeClient.apptoken a u (sym e))),
  );
}

prepared_free : prepared (user_request_key NodeClient.apptoken NodeClient.username) ≡ none
unfolding user_request_key app_secret_key text_eq
prepared_free = refl

main-new_server_example :
    ((run local
        (NodeClient.main small_engine)
        (record { random = 8; store = prepared }, nothing_put)).result
      ≡ ok tt)
    × IsDemo small_engine
        (run local
          (NodeClient.main small_engine)
          (record { random = 8; store = prepared }, nothing_put)).events
main-new_server_example =
    main-new_server toy toy-Laws small encodings small-RedisLaws encodings-EncodingLaws
      local-HexLaws small_json small_engine small-JsonLaws none 7 8 server (codes "1.0") libraries
      config local (record { random = 8; store = prepared }) nothing_put new_server_7 refl
      local-Connected libraries-Asks libraries-StoreLaws local-Provides refl (put-same _ _ empty)
      prepared-IsGood prepared_free
