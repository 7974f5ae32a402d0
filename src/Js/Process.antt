-- ===== src/Js/Process.antt =====
-- What a call of a function does, in the order in which it does it: lines for the console, calls
-- of the Go bindings and of the clock, and HTTP requests that it awaits. All code that lib.ts and
-- its clients call, but do not have, stands here as a question or as a field of `Engine`.
use plissken.Base.{ℕ, Text, codes, Bool, true, false, Option, none, List, ◌∷◌, [], ◌++◌}
use plissken.Json.{Json}

-- The two fields of an axios response that the code reads.
pub record HttpResponse : Type 0 where
  pub status : ℕ
  pub body : Json

-- The query parameters of a request.
abbrev pub Params : Type 0
Params = List (Text × Text)

-- axios: `get(url, {params})`, `post(url, body)` and `put(url, null, {params})`.
pub data Request : Type 0 where
  get : Text → Params → Request
  post : Text → Text → Request
  put : Text → Params → Request

-- The exports of js-sdk/src/ext/plissken-bindings, each with its arguments, and
-- `Date.now().toString()`. Each gives a text.
pub data Call : Type 0 where
  make_oprf_request : (apptoken username password : Text) → Call
  finalize_password_registration :
      (apptoken username oprf_request oprf_server_eval server_pub_key : Text) → Call
  finalize_password_authentication :
      (username oprf_request start_password_auth_data server_pub_key : Text) → Call
  date_now : Call

-- What is thrown: an `Error`, a `TypeError`, a `SyntaxError`, a bare text, and an axios error,
-- which has a response if the server answered.
pub data Thrown : Type 0 where
  error : Text → Thrown
  type_error : Text → Thrown
  syntax_error : Text → Thrown
  text : Text → Thrown
  axios_error : Text → Option HttpResponse → Thrown

-- The text of an error: its name alone if it has no message.
abbrev pub named : (name message : Text) → Text
named name [] = name
named name (c ∷ m) = name ++ codes ": " ++ (c ∷ m)

-- `${e}` of what was thrown. An error of axios is an `Error` with further fields.
unfoldable pub thrown_string : Thrown → Text
thrown_string (error m) = named (codes "Error") m
thrown_string (type_error m) = named (codes "TypeError") m
thrown_string (syntax_error m) = named (codes "SyntaxError") m
thrown_string (text s) = s
thrown_string (axios_error m r) = named (codes "Error") m

-- `axios.isAxiosError(e)`.
unfoldable pub is_axios_error : Thrown → Bool
is_axios_error (error m) = false
is_axios_error (type_error m) = false
is_axios_error (syntax_error m) = false
is_axios_error (text s) = false
is_axios_error (axios_error m r) = true

-- `e.response`.
unfoldable pub response_of : Thrown → Option HttpResponse
response_of (error m) = none
response_of (type_error m) = none
response_of (syntax_error m) = none
response_of (text s) = none
response_of (axios_error m r) = r

-- How a call ends, and what answers a question.
pub data Result (A : Type 0) : Type 0 where
  ok : A → Result A
  throw : Thrown → Result A

-- The JavaScript engine: `JSON.parse`, `JSON.stringify`, the message of the `TypeError` that
-- `k in v` throws where `v` is no object, the message of the one that is thrown where a value has no
-- text and no number, and the UTC text of a `Date` that `setTime` was given.
pub record Engine : Type 0 where
  pub parse : Text → Result Json
  pub stringify : Json → Text
  pub in_failure : Text → Json → Text
  pub no_primitive : Text
  pub utc_string : Json → Text

-- `console.log` and `console.error`.
pub data Line : Type 0 where
  log error_log : Text → Line

pub data Process (A : Type 0) : Type 0 where
  ended : Result A → Process A
  print : Line → Process A → Process A
  call : Call → (Result Text → Process A) → Process A
  send : Request → (Result HttpResponse → Process A) → Process A

abbrev pub done : {A : Type 0} → A → Process A
done a = ended (ok a)

abbrev pub throws : {A : Type 0} → Thrown → Process A
throws e = ended (throw e)

abbrev pub calls : Call → Process Text
calls c = call c ended

-- `await axios.get(…)` and the like.
abbrev pub sends : Request → Process HttpResponse
sends q = send q ended

abbrev pub prints : Line → Process (Unit {0})
prints l = print l (done tt)

module _ {A B : Type 0} where
  abbrev pub continue : Result A → (A → Process B) → Process B
  continue (ok a) f = f a
  continue (throw e) f = ended (throw e)

  infixl 5 ◌>>=◌ ◌>>◌
  abbrev pub ◌>>=◌ : Process A → (A → Process B) → Process B
  ended r >>= f = continue r f
  print l p >>= f = print l (p >>= f)
  call c k >>= f = call c (λ r. k r >>= f)
  send q k >>= f = send q (λ r. k r >>= f)

  abbrev pub ◌>>◌ : Process A → Process B → Process B
  p >> q = p >>= λ _. q

module _ {A : Type 0} where
  abbrev pub recover : Result A → (Thrown → Process A) → Process A
  recover (ok a) h = ended (ok a)
  recover (throw e) h = h e

  -- `try { p } catch (e) { h(e) }`.
  abbrev pub try_catch : Process A → (Thrown → Process A) → Process A
  try_catch (ended r) h = recover r h
  try_catch (print l p) h = print l (try_catch p h)
  try_catch (call c k) h = call c (λ r. try_catch (k r) h)
  try_catch (send q k) h = send q (λ r. try_catch (k r) h)
