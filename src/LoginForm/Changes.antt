-- ===== src/LoginForm/Changes.antt =====
-- What a handler may do to the form when it ends.
use plissken.Base.{◌≡◌, refl, sym, subst, Text, codes, Option, none, some, List, [], ◌∷◌, ◌++◌}
use plissken.Js.Process.{
  Engine, Process, Result, ok, throw, Thrown, type_error, thrown_string, error_log, ended, continue,
  done, calls, sends, date_now, ◌>>=◌,
}
use plissken.Js.Template.{time_text}
use plissken.Js.Run.{Event, printed}
use plissken.Js.Ensures.{
  Ensures, Returns, Handles, Continues, Ensures-bind, Ensures-try_catch, weaken,
}
use plissken.Js.Sequence.{Ensures-any}
use plissken.Sdk.Protocol.{run_password_auth, run_password_reg}
use plissken.Sdk.Authentication.{IsAuthentication, run_password_auth-Ensures}
use plissken.LoginForm.{Config, FormState, Update, default_app_token, show_info, show_error}
use plissken.LoginForm.Messages.{failed_text, if_text, failure-failed_text}
use plissken.LoginForm.Handlers.{
  report, logged_in, check_status, try_login, try_register, try_put_resource, try_get_resource,
  handle_login, handle_register, handle_put_resource, handle_get_resource,
}
use plissken.LoginForm.View.{Button, register, login, put_resource, get_resource}
use plissken.LoginForm.Page.{handler}

module _ (js : Engine) (cfg : Config) where
  -- An authentication of the user name and the password in `s`, which ends with `token`.
  abbrev pub Authenticates : FormState → List Event → Text → Type 0
  Authenticates s es token =
      IsAuthentication js default_app_token s.username s.password
        cfg.hex_encoded_plissken_server_pub_key cfg.plissken_auth_endpoint es token

  -- A handler that was called in `s` and did `es` ends with a message, and with a new session token
  -- only if `es` is an authentication with this token.
  pub data Changes (s : FormState) (es : List Event) (u : Update) : Type 0 where
    informs : (m : Text) → u ≡ show_info m → Changes s es u
    reports : (m : Text) → u ≡ show_error m → Changes s es u
    logs_in : (token : Text) → Authenticates s es token → u ≡ logged_in token → Changes s es u

  -- It ends with a change; or it rejects, by the `TypeError` of a value that has no text.
  abbrev pub Settles : FormState → List Event → Result Update → Type 0
  Settles s es (ok u) = Changes s es u
  Settles s es (throw e) = e ≡ type_error js.no_primitive

  reported :
      (s : FormState) (t : List Event) (m : Option Text)
      → Ensures (Settles s) t (continue (if_text js m) (λ m. done (show_error m)))
  reported s t none = refl
  reported s t (some m) = reports m refl

  module _ (s : FormState) (axios_prefix prefix : Text) where
    -- What the `try` of a handler has to ensure.
    abbrev Tries : List Event → Result Update → Type 0
    Tries = Handles (Settles s) (report js axios_prefix prefix)

    Tries-throw : (t : List Event) (e : Thrown) → Tries t (throw e)
    unfolding report
    Tries-throw t e =
        let after =
          t ++ printed (error_log (codes "From plissken-js-sdk: " ++ thrown_string e)) ∷ [] in
        subst (λ r. Ensures (Settles s) after (continue r (λ m. done (show_error m))))
          (sym (failure-failed_text js axios_prefix prefix e))
          (reported s after (failed_text axios_prefix prefix e))

    Tries-result :
        {A : Type 0} (f : A → Process Update)
        → ((t : List Event) (a : A) → Ensures Tries t (f a))
        → (t : List Event) (r : Result A) → Continues Tries f t r
    Tries-result f h t (ok a) = h t a
    Tries-result f h t (throw e) = Tries-throw t e

    -- A step whose result does not matter.
    Tries-step :
        {A : Type 0} (p : Process A) (f : A → Process Update) (es : List Event)
        → ((t : List Event) (a : A) → Ensures Tries t (f a))
        → Ensures Tries es (p >>= f)
    Tries-step p f es h =
        Ensures-bind Tries f p es (Ensures-any (Continues Tries f) p es (Tries-result f h))

    Tries-login :
        (t : List Event) (r : Result Text)
        → Returns (Authenticates s) t r
        → Continues Tries (λ token. done (logged_in token)) t r
    Tries-login t (ok token) h = logs_in token h refl
    Tries-login t (throw e) h = Tries-throw t e

  abbrev auth : FormState → Process Text
  auth s =
      run_password_auth js default_app_token s.username s.password
        cfg.hex_encoded_plissken_server_pub_key cfg.plissken_auth_endpoint

  abbrev reg : FormState → Process (Unit {0})
  reg s =
      run_password_reg js default_app_token s.username s.password
        cfg.hex_encoded_plissken_server_pub_key cfg.plissken_auth_endpoint

  handle_login-Settles : (s : FormState) → Ensures (Settles s) [] (handle_login js cfg s)
  unfolding handle_login try_login
  handle_login-Settles s = Ensures-try_catch (Settles s) _ (try_login js cfg s) [] (
      Ensures-bind (Tries s _ _) _ (auth s) []
        (weaken _ _ (auth s) [] (Tries-login s _ _) (run_password_auth-Ensures js _ _ _ _ _)))

  handle_register-Settles : (s : FormState) → Ensures (Settles s) [] (handle_register js cfg s)
  unfolding handle_register try_register
  handle_register-Settles s =
      Ensures-try_catch (Settles s) _ (try_register js cfg s) []
        (Tries-step s _ _ (reg s) _ [] (λ t _. informs _ refl))

  handle_put_resource-Settles :
      (s : FormState) → Ensures (Settles s) [] (handle_put_resource js cfg s)
  unfolding handle_put_resource try_put_resource
  handle_put_resource-Settles s = Ensures-try_catch (Settles s) _ (try_put_resource js cfg s) [] (
      Tries-step s _ _ (calls date_now) _ [] λ t ts.
        Tries-step s _ _ (sends _) _ t
          λ t' response. Tries-step s _ _ (check_status response) _ t' λ t'' _. informs _ refl)

  handle_get_resource-Settles :
      (s : FormState) → Ensures (Settles s) [] (handle_get_resource js cfg s)
  unfolding handle_get_resource try_get_resource
  handle_get_resource-Settles s = Ensures-try_catch (Settles s) _ (try_get_resource js cfg s) [] (
      Tries-step s _ _ (sends _) _ [] λ t' response.
        Tries-step s _ _ (check_status response) _ t'
          λ u _. Tries-step s _ _ (ended (time_text js response.body)) _ u λ v _. informs _ refl)

  pub handler-Settles : (k : Button) (s : FormState) → Ensures (Settles s) [] (handler js cfg k s)
  unfolding handler
  handler-Settles login s = handle_login-Settles s
  handler-Settles register s = handle_register-Settles s
  handler-Settles put_resource s = handle_put_resource-Settles s
  handler-Settles get_resource s = handle_get_resource-Settles s
