-- ===== src/System/Environment.antt =====
-- What stands between lib.ts and the two Go programs: the network, with axios and gin at its ends, and
-- the JavaScript engine, in which the bindings run. The randomness of both is one source. `X` is the state of all else.
use plissken.Base.{ℕ, ◌≤◌, ◌≡◌, some, List, Text, ◌++◌}
use plissken.Js.Process.{
  Engine, Thrown, axios_error, Result, ok, throw, HttpResponse, post, Call, make_oprf_request,
  finalize_password_registration, finalize_password_authentication, date_now,
}
use plissken.Js.Run.{Env}
use plissken.Json.{Json, str}
use plissken.Opaque.Primitives.{Primitives}
use plissken.Opaque.Server.{World, Server}
use plissken.Common.Documents.{IsAscii}
use plissken.Common.Codec.{GoJson}
use plissken.Common.Messages.{StartPasswordAuthServerResp, marshal_evaluation, marshal_start}
use plissken.AuthServer.Redis.{Redis, Encodings}
use plissken.AuthServer.Handlers.{Reply, status, text, abort, evaluation, authentication}
use plissken.AuthServer.Middleware.{aborted}
use plissken.AuthServer.Router.{serve_post}
use plissken.Bindings.{exports}

-- A call whose names and password are the same for Go as for JavaScript.
abbrev pub IsAsciiCall : Call → Type 0
IsAsciiCall (make_oprf_request a u password) = IsAscii a × IsAscii u × IsAscii password
IsAsciiCall (finalize_password_registration a u request eval key) = IsAscii a × IsAscii u
IsAsciiCall (finalize_password_authentication u request resp key) = IsAscii u
IsAsciiCall date_now = Unit {0}

abbrev pub response : ℕ → Json → HttpResponse
response n j = record { status = n; body = j }

module _ {R D : Type 0} (p : Primitives R) (r : Redis D) (c : Encodings) (g : GoJson) (js : Engine)
    (s : Server) where
  pub record Connected {X : Type 0} (env : Env (World R D × X)) (endpoint : Text) : Type 0 where
    -- What axios makes of what gin writes for a reply.
    pub received : Reply p.Element → Result HttpResponse
    pub posts :
        (path body : Text) (w : World R D) (x : X)
        → env.http (post (endpoint ++ path) body) (w, x) ≡ (
          received (serve_post p r c g s path body w).0,
          ((serve_post p r c g s path body w).1, x),
        )
    pub received_status : (j : Json) × (received (status 200) ≡ ok (response 200 j))
    pub received_evaluation :
        (els : List p.Element) (t : Text) (j : Json)
        → marshal_evaluation p c.hex g els ≡ some t
        → js.parse t ≡ ok j
        → received (evaluation els) ≡ ok (response 200 j)
    pub received_authentication :
        (resp : StartPasswordAuthServerResp p.Element) (t : Text) (j : Json)
        → marshal_start p c.hex g resp ≡ some t
        → js.parse t ≡ ok j
        → received (authentication resp) ≡ ok (response 200 j)
    -- A status of an error is thrown. A body that is not JSON stays as it is.
    pub received_text :
        (n : ℕ) (t : Text) (e : Thrown)
        → 400 ≤ n
        → js.parse t ≡ throw e
        → (m : Text) × (received (text n t) ≡ throw (axios_error m (some (response n (str t)))))
    pub received_abort :
        (n : ℕ) (m : Text) (e : Thrown)
        → 400 ≤ n
        → js.parse (aborted n m).1 ≡ throw e
        → (message : Text) × (received (abort n (some m))
            ≡ throw (axios_error message (some (response (aborted n m).0 (str (aborted n m).1)))))
    -- A function that panics is not spoken of.
    pub returns :
        (call : Call) (w : World R D) (x : X) (t : Text) (random : R)
        → IsAsciiCall call
        → exports p c.hex g call w.random ≡ (some t, random)
        → env.bindings call (w, x) ≡ (ok t, (record { random = random; store = w.store }, x))
