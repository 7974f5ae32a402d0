-- ===== src/Lib.antt =====
-- Plissken: the JavaScript SDK of a password-authenticated key exchange and its clients.
--
-- The program. `js-sdk/src/lib.ts` registers and authenticates a user at an auth server: it asks the
-- Go bindings (`js-sdk/src/ext/plissken-bindings`) for the cryptographic parts and axios for the
-- requests. Two clients use it: the login form of the web app
-- (`client-examples/webapp/frontend/src/login_form.js`), a React component, and the Node.js client
-- (`client-examples/nodejs/src/main.ts`). The bindings and the auth server (`auth-server`) are the two
-- sides of the protocol in `protocol-lib`, in Go, which send each other JSON through lib.ts. A resource
-- server (`example-resource-server`) gives a client its resource if the auth server knows the session
-- token.
--
-- The modules.
--   Base        names of the libraries, Boolean tests, texts as lists of code values
--   Json        JSON values, how a template literal prints them, and when they count as true
--   Js          async code as data. A call is a `Process`: lines for the console, calls of the bindings
--               and of the clock, and requests, each with what follows for any answer. `Js.Run` runs it
--               in an environment, which is any function of a state; `Js.Ensures` is a logic for all
--               answers, and `Js.Sequence` has the rules for sequences. `Js.Template` has the places
--               where a value becomes a text and may throw, `Js.Completed` what has been answered when a
--               run returns.
--   Sdk         lib.ts: its classes (Classes), its requests (Requests), and `run_password_auth` and
--               `run_password_reg` (Protocol). A class's constructor is `new_…`, and what
--               `JSON.stringify` sees of an instance is `…_json`. Functions of the source named
--               `…_with_plissken_server` go without that ending. When the two return is in Completion,
--               and what has happened then in Authentication and Registration.
--   LoginForm   login_form.js: the state and its changes, the messages case by case (Messages),
--               `handle…Btn` as `handle_…` (Handlers), `render` (View), and the page, on which the user
--               types and clicks while handlers run (Page)
--   NodeClient  main.ts
--   Opaque      protocol-lib, in Go: the user's side (`protocol-lib/client/client.go`, Client) and the
--               server's (`protocol-lib/server/server.go` and `storage.go`, Server), over `Primitives`
--               and their `Laws`; a registration and a login put together as in
--               `protocol-lib/functional_test.go` (Session), the envelope that the user's side makes and
--               opens (Envelopes), the two sides together (Agreement), and what an accepted token is
--               (Acceptance)
--   Common      the messages of `protocol-lib/common/common.go`: JSON objects of texts (Documents), the
--               structs with `json` tags and what is called of the encodings (Codec), `MarshalJSON` as
--               `marshal_…` and `UnmarshalJSON` as `unmarshal_…` (Messages), and their round trips
--               (Marshalled, RoundTrip)
--   Bindings    the functions that `auth-server/cmd/js-bindings/main.go` exports to JavaScript
--   AuthServer  the storage of the auth server (`auth-server/rediswrapper/rediswrapper.go`,
--               RedisWrapper) over a `Redis` with its laws, who shares its keys (Keys), the nonces that
--               it has (Nonces), and the protocol over it (Agreement). The handlers of
--               `auth-server/server/handlers.go` (Handlers): what a login has checked and left
--               (Login), whose credentials are known (Credentials), what happens to a user name that is
--               taken (Registration), which path leads to which handler (Router:
--               `auth-server/server/server.go`), which origins are allowed (Cors), the
--               error middleware (Middleware), the names that are read out of keys (Listing), and the
--               index page (Index, and line by line in Index.Page). A key `redisKey_X` is `x_key`.
--   ResourceServer  `example-resource-server/main.go`: its two handlers, one at a time (Requests) and as
--               steps side by side (Interleaved)
--   System      the whole: lib.ts, the bindings and the auth server in one environment (Environment),
--               with what each reads of the others' messages (Forwarding, Client, Server), from a
--               registration (Registration) to an authentication (Authentication), both in a row
--               (Agreement), what is refused (Refusals), and the Node.js client against all servers
--               (Resources, Demo)
--   Tests       runs at concrete inputs
--
-- What is assumed. axios, the bindings, the clock and the JavaScript engine are parameters: an
-- answer to a question is any value or any error, and `Engine` holds `JSON.parse`, `JSON.stringify`
-- and the texts that the engine makes. No law of them is used in `Sdk`, `LoginForm` and
-- `NodeClient`; in `System` the bindings and the server are those of the Go programs (`Connected`),
-- and JSON means the same in both languages (`JsonLaws`). An object with a field `toString` of its
-- own has no text: a template literal and `setTime` throw a `TypeError` for it, whose message is a
-- field of `Engine`. An error of axios is an `Error`, as in axios 0.26. The libraries of
-- protocol-lib are `Opaque.Primitives.Primitives`; `Laws` is what is used of them, and
-- `Opaque.Stored.Keeps` what is used of a storage. The storage of the auth server stands on
-- `AuthServer.Redis.Redis` and `Encodings` with the laws beside them, the messages on
-- `Common.Codec.Hex` and `GoJson`, and the resource server on `ResourceServer.Libraries` with
-- `ResourceServer.Requests.StoreLaws`. In `System` texts that a user gives are ASCII, where bytes,
-- UTF-16 and JSON agree, and a question to a server is answered in time; a time that the clock gave
-- is read back as a number (`Provides`).
--
-- Numbers. A status is a natural number; `decimal` prints it with fuel n + 1 for n. A JSON number is
-- the text that JavaScript prints for it.
--
-- In the Go programs an error is `none`, without its text, and a nil slice is an empty one.
--
-- Not modelled: the layout of the form; the key generator and the start of the auth server; the
-- server of static files (`client-examples/webapp/spa-server`), which holds no state; the web app's
-- shell, which mounts the form; and the generated bindings, whose Go source is `Bindings`. Log lines
-- of the Go programs are left out, and no time passes for an expiry.
pub mod AuthServer
pub mod Base
pub mod Json
pub mod Js
pub mod Sdk
pub mod LoginForm
pub mod NodeClient
pub mod Tests
pub mod Opaque
pub mod Common
pub mod Bindings
pub mod System
pub mod ResourceServer
