-- ===== src/LoginForm/Outcomes.antt =====
-- What each handler ends with, by what it waited for.
use plissken.Base.{
  ◌≡◌, ◌∙◌, ap, Text, Option, none, some, codes, [], ◌∷◌, ◌++◌, ◌==◌, refl, arith, if◌then◌else◌,
}
use plissken.Js.Process.{
  Engine, Process, Result, ok, throw, error, type_error, continue, HttpResponse, Request, get, put,
  date_now, done, try_catch, ◌>>=◌,
}
use plissken.Js.Template.{time_text}
use plissken.Js.Run.{Env, run, requests}
use plissken.Js.Sequence.{next, caught, result-bind, result-try_catch}
use plissken.Sdk.Protocol.{run_password_auth, run_password_reg}
use plissken.LoginForm.{Config, FormState, Update, default_app_token, show_info, show_error}
use plissken.LoginForm.Messages.{failed_text, if_text, failure-failed_text}
use plissken.LoginForm.Handlers.{
  report, logged_in, check_status, try_login, try_register, try_put_resource, try_get_resource,
  handle_login, handle_register, handle_put_resource, handle_get_resource,
}

-- A message that is shown; or nothing is, and the handler rejects.
abbrev pub shown : Engine → Option Text → Result Update
shown js none = throw (type_error js.no_primitive)
shown js (some m) = ok (show_error m)

-- What a handler ends with, by the result that it waited for.
unfoldable pub change_for :
    {A : Type 0} → Engine → (A → Update) → (axios_prefix prefix : Text) → Result A → Result Update
change_for js good axios_prefix prefix (ok a) = ok (good a)
change_for js good axios_prefix prefix (throw e) = shown js (failed_text axios_prefix prefix e)

-- A response counts if its status is 200.
unfoldable pub checked : Result HttpResponse → Result HttpResponse
checked (ok response) =
    if response.status == 200 then ok response else throw (error (codes "Failed to put value"))
checked (throw e) = throw e

-- The time that a response has.
unfoldable pub timed : Engine → Result HttpResponse → Result Text
timed js (ok response) = time_text js response.body
timed js (throw e) = throw e

module _ {W : Type 0} (js : Engine) (env : Env W) where
  reported :
      (o : Option Text) (v : W)
      → (run env (continue (if_text js o) (λ m. done (show_error m))) v).result ≡ shown js o
  unfolding run
  reported none v = refl
  reported (some m) v = refl

  settled :
      {A : Type 0} (good : A → Update) (axios_prefix prefix : Text) (r : Result A) (w v : W)
      → caught env (report js axios_prefix prefix) (next env (λ a. done (good a)) r w) v
        ≡ change_for js good axios_prefix prefix r
  unfolding run report change_for
  settled good axios_prefix prefix (ok a) w v = refl
  settled good axios_prefix prefix (throw e) w v =
      ap (λ r. (run env (continue r (λ m. done (show_error m))) v).result)
        (failure-failed_text js axios_prefix prefix e)
      ∙ reported (failed_text axios_prefix prefix e) v

  -- A handler whose `try` ends with `r`, and then a change.
  ends_with :
      {A : Type 0} (p : Process Update) (good : A → Update) (axios_prefix prefix : Text)
      (r : Result A) (w v : W)
      → (run env p w).result ≡ next env (λ a. done (good a)) r v
      → (run env (try_catch p (report js axios_prefix prefix)) w).result
        ≡ change_for js good axios_prefix prefix r
  ends_with p good axios_prefix prefix r w v e =
      result-try_catch env _ p w
      ∙ ap (λ x. caught env (report js axios_prefix prefix) x (run env p w).world) e
      ∙ settled good axios_prefix prefix r v _

  -- A handler whose `try` waits for `p`.
  waits :
      {A : Type 0} (p : Process A) (good : A → Update) (axios_prefix prefix : Text) (w : W)
      → (run env (try_catch (p >>= λ a. done (good a)) (report js axios_prefix prefix)) w).result
        ≡ change_for js good axios_prefix prefix (run env p w).result
  waits p good axios_prefix prefix w =
      ends_with (p >>= λ a. done (good a)) good axios_prefix prefix _ w _ (result-bind env _ p w)

  continued_events :
      (r : Result Text) (v : W)
      → requests (run env (continue r (λ m. done (show_error m))) v).events ≡ []
  unfolding run requests
  continued_events (ok m) v = refl
  continued_events (throw e) v = refl

module _ {W : Type 0} (js : Engine) (cfg : Config) (env : Env W) (s : FormState) (w : W) where
  -- The login handler ends with the session token and its message if `run_password_auth` returns
  -- one. Otherwise it ends with an error message: a prefix, the text of what was thrown, and for an
  -- axios error with a body that counts as true the text of the body; the prefix of an axios error is
  -- that of a registration. Where the body has no text it rejects with a `TypeError` and shows
  -- nothing. The same holds of the registration handler and `run_password_reg`, without a token and
  -- with one prefix.
  pub handle-result :
      ((run env (handle_login js cfg s) w).result
        ≡ change_for js logged_in
            (codes "Failed to register: ")
            (codes "Failed to login: ")
            (run env
              (run_password_auth js default_app_token s.username s.password
                cfg.hex_encoded_plissken_server_pub_key cfg.plissken_auth_endpoint)
              w).result)
      × ((run env (handle_register js cfg s) w).result
          ≡ change_for js
              (λ _. show_info (codes "Successfully registered"))
              (codes "Failed to register: ")
              (codes "Failed to register: ")
              (run env
                (run_password_reg js default_app_token s.username s.password
                  cfg.hex_encoded_plissken_server_pub_key cfg.plissken_auth_endpoint)
                w).result)
  unfolding handle_login handle_register try_login try_register
  handle-result = (
    waits js env (run_password_auth js _ _ _ _ _) logged_in _ _ w,
    waits js env (run_password_reg js _ _ _ _ _) (λ _. show_info (codes "Successfully registered"))
        _ _ w,
  )

  abbrev put_request : Text → Request
  put_request ts = put (cfg.resource_server_endpoint ++ codes "/put-resource") (
      (codes "session_token", s.session_token)
      ∷ (codes "username", s.username)
      ∷ (codes "ts", ts)
      ∷ [])

  abbrev get_request : Request
  get_request =
      get (cfg.resource_server_endpoint ++ codes "/get-resource")
        ((codes "session_token", s.session_token) ∷ (codes "username", s.username) ∷ [])

  put_ends :
      (ts : Text) (v : W)
      → env.bindings date_now w ≡ (ok ts, v)
      → (run env (try_put_resource js cfg s) w).result
        ≡ next env
            (λ _. done (show_info (codes "Updated last time I cut my hair")))
            (checked (env.http (put_request ts) v).0)
            (env.http (put_request ts) v).1
  unfolding run try_put_resource check_status checked
  put_ends ts v e = rw e (ground arith)

  put_sends :
      (ts : Text) (v : W)
      → env.bindings date_now w ≡ (ok ts, v)
      → requests (run env (handle_put_resource js cfg s) w).events ≡ put_request ts ∷ []
  unfolding run requests handle_put_resource try_put_resource check_status report
  put_sends ts v e = rw e (ground (arith, continued_events js env))

  -- Where the clock gives `ts`, the handler for putting sends exactly one request, with the token
  -- and the user name that stood in the form when it was called; and it ends with its message if
  -- the answer has status 200, and otherwise with the error message, or the `TypeError`, of what was
  -- thrown.
  pub handle_put_resource-result :
      (ts : Text) (v : W)
      → env.bindings date_now w ≡ (ok ts, v)
      → ((run env (handle_put_resource js cfg s) w).result
          ≡ change_for js
              (λ _. show_info (codes "Updated last time I cut my hair"))
              (codes "Failed to put resource: ")
              (codes "Failed: ")
              (checked (env.http (put_request ts) v).0))
        × (requests (run env (handle_put_resource js cfg s) w).events ≡ put_request ts ∷ [])
  unfolding handle_put_resource
  handle_put_resource-result ts v e = (
    ends_with js env (try_put_resource js cfg s) _ _ _ (checked (env.http (put_request ts) v).0) w
        (env.http (put_request ts) v).1 (put_ends ts v e),
    put_sends ts v e,
  )

  get_ends :
      (run env (try_get_resource js cfg s) w).result
      ≡ next env
          (λ t. done (show_info (codes "Successfully got last time I cut my hair: " ++ t)))
          (timed js (checked (env.http get_request w).0))
          (env.http get_request w).1
  unfolding run try_get_resource check_status checked timed
  get_ends = ground arith

  get_sends : requests (run env (handle_get_resource js cfg s) w).events ≡ get_request ∷ []
  unfolding run requests handle_get_resource try_get_resource check_status report
  get_sends = ground (arith, continued_events js env)

  -- The handler for getting sends exactly one request, with the token and the user name that stood
  -- in the form when it was called; and it ends with the time that the answer has if its status is
  -- 200, and otherwise with the error message, or the `TypeError`, of what was thrown. A body without
  -- a text has no time: `setTime` throws.
  pub handle_get_resource-result :
      ((run env (handle_get_resource js cfg s) w).result
        ≡ change_for js
            (λ t. show_info (codes "Successfully got last time I cut my hair: " ++ t))
            (codes "Failed to get resource: ")
            (codes "Failed: ")
            (timed js (checked (env.http get_request w).0)))
      × (requests (run env (handle_get_resource js cfg s) w).events ≡ get_request ∷ [])
  unfolding handle_get_resource
  handle_get_resource-result = (
    ends_with js env (try_get_resource js cfg s) _ _ _
        (timed js (checked (env.http get_request w).0)) w (env.http get_request w).1 get_ends,
    get_sends,
  )
