-- ===== src/NodeClient/Order.antt =====
-- The order of what the client of main.ts does.
use plissken.Base.{
  ◌≡◌, refl, Text, codes, List, [], ◌∷◌, ◌++◌, ◌⊎◌, inl, inr, ==_iff, Bool, true, false, ◌==◌,
  append_assoc, subst, ap, ◌∙◌, if◌then◌else◌,
}
use plissken.Js.Process.{
  Engine, Process, Result, ok, throw, HttpResponse, Thrown, thrown_string, log, error_log, get, put,
  date_now, Request, done, throws, prints, ◌>>=◌,
}
use plissken.Js.Run.{Event, printed, called, sent, Env, run}
use plissken.Js.Ensures.{
  Ensures, Returns, Handles, weaken, then-Returns, on_ok, on_call, on_send, Ensures-try_catch,
  Ensures-run,
}
use plissken.Js.Sequence.{AddsTo, Ensures-AddsTo}
use plissken.Js.Template.{time_text}
use plissken.Sdk.Protocol.{run_password_auth, run_password_reg}
use plissken.Sdk.Authentication.{IsAuthentication, run_password_auth-Ensures}
use plissken.Sdk.Registration.{IsRegistration, run_password_reg-Ensures}
use plissken.NodeClient.{
  apptoken, username, password, server_pub_key, auth_server_endpoint, resource_server_endpoint,
  check_status, use_resource, try_main, main,
}

module _ (js : Engine) where
  abbrev put_request : (token ts : Text) → Request
  put_request token ts =
      put (resource_server_endpoint ++ codes "/put-resource")
        ((codes "session_token", token) ∷ (codes "username", username) ∷ (codes "ts", ts) ∷ [])

  abbrev get_request : Text → Request
  get_request token =
      get (resource_server_endpoint ++ codes "/get-resource")
        ((codes "session_token", token) ∷ (codes "username", username) ∷ [])

  -- The resource has been put and got with `token`, with status 200 each time.
  pub record IsUse (token : Text) (before es : List Event) : Type 0 where
    pub ts : Text
    pub stored : HttpResponse
    pub got : HttpResponse
    pub stored_ok : stored.status ≡ 200
    pub got_ok : got.status ≡ 200
    pub time : Text
    pub readable : time_text js got.body ≡ ok time
    pub events :
        es
        ≡ before
          ++ called date_now (ok ts)
            ∷ sent (put_request token ts) (ok stored)
            ∷ printed (log (codes "Getting the same value from the resource server"))
            ∷ sent (get_request token) (ok got)
            ∷ printed (log (codes "Successfully got last time I cut my hair: " ++ time))
            ∷ []

  on_guard :
      {B : Type 0} (R : List Event → B → Type 0) (es : List Event) (test : Bool) (x : Thrown)
      (f : Unit {0} → Process B)
      → (test ≡ true → Ensures (Returns R) es (f tt))
      → Ensures (Returns R) es ((if test then done tt else throws x) >>= f)
  on_guard R es true x f h = h refl
  on_guard R es false x f h = tt

  on_status :
      {B : Type 0} (R : List Event → B → Type 0) (es : List Event) (response : HttpResponse)
      (f : Unit {0} → Process B)
      → (response.status ≡ 200 → Ensures (Returns R) es (f tt))
      → Ensures (Returns R) es (check_status response >>= f)
  unfolding check_status
  on_status R es response f h =
      on_guard R es (response.status == 200) _ f (λ same. h ((==_iff _ _).0 same))

  used :
      (token ts time : Text) (stored got : HttpResponse) (es : List Event)
      → stored.status ≡ 200
      → got.status ≡ 200
      → time_text js got.body ≡ ok time
      → IsUse token es (
          es
          ++ called date_now (ok ts) ∷ []
          ++ sent (put_request token ts) (ok stored) ∷ []
          ++ printed (log (codes "Getting the same value from the resource server")) ∷ []
          ++ sent (get_request token) (ok got) ∷ []
          ++ printed (log (codes "Successfully got last time I cut my hair: " ++ time)) ∷ [])
  used token ts time stored got es stored_ok got_ok readable = record {
    ts = ts;
    stored = stored;
    got = got;
    stored_ok = stored_ok;
    got_ok = got_ok;
    time = time;
    readable = readable;
    events = simp append_assoc;
  }

  use_resource-IsUse :
      (token : Text) (es : List Event)
      → Ensures (Returns (λ t _. IsUse token es t)) es (use_resource js token)
  unfolding use_resource
  use_resource-IsUse token es = on_call _ es _ _ λ ts.
      on_send _ _ (put_request token ts) _ λ stored. on_status _ _ stored _ λ stored_ok.
        on_send _ _ (get_request token) _ λ got. on_status _ _ got _ λ got_ok.
          on_ok _ _ (time_text js got.body) _
            λ time readable. used token ts time stored got es stored_ok got_ok readable

  -- A registration, an authentication that gave a token, and a use of the resource with this token.
  pub record IsDemo (es : List Event) : Type 0 where
    pub token : Text
    pub registration : List Event
    pub authentication : List Event
    pub registered :
        IsRegistration js apptoken username password server_pub_key auth_server_endpoint
          registration
    pub authenticated :
        IsAuthentication js apptoken username password server_pub_key auth_server_endpoint
          authentication token
    pub used : IsUse token (registration ++ authentication) es

  abbrev registers : Process (Unit {0})
  registers = run_password_reg js apptoken username password server_pub_key auth_server_endpoint

  abbrev authenticates : Process Text
  authenticates =
      run_password_auth js apptoken username password server_pub_key auth_server_endpoint

  demo :
      (token : Text) (reg auth t t' : List Event) {u : List Event}
      → t ≡ reg
      → t' ≡ t ++ auth
      → IsRegistration js apptoken username password server_pub_key auth_server_endpoint reg
      → IsAuthentication js apptoken username password server_pub_key auth_server_endpoint auth
          token
      → IsUse token t' u
      → IsDemo u
  demo token reg auth t t' {u} e e' r a h = record {
    token = token;
    registration = reg;
    authentication = auth;
    registered = r;
    authenticated = a;
    used = subst (λ x. IsUse token x u) (e' ∙ ap (λ x. x ++ auth) e) h;
  }

  IsDemo-of :
      (token : Text) (reg auth t t' : List Event)
      → t ≡ reg
      → t' ≡ t ++ auth
      → IsRegistration js apptoken username password server_pub_key auth_server_endpoint reg
      → IsAuthentication js apptoken username password server_pub_key auth_server_endpoint auth
          token
      → (u : List Event) (r : Result (Unit {0})) → Returns (λ v _. IsUse token t' v) u r
      → Returns (λ v _. IsDemo v) u r
  IsDemo-of token reg auth t t' e e' r a u (ok _) h = demo token reg auth t t' e e' r a h
  IsDemo-of token reg auth t t' e e' r a u (throw x) h = tt

  pub try_main-IsDemo : Ensures (Returns (λ t _. IsDemo t)) [] (try_main js)
  unfolding try_main
  try_main-IsDemo =
      then-Returns (AddsTo (λ t _. IsRegistration js _ _ _ _ _ t) []) _ _ registers []
        (Ensures-AddsTo _ [] registers (run_password_reg-Ensures js _ _ _ _ _))
        λ t _ (reg, e, r).
          then-Returns (AddsTo (IsAuthentication js _ _ _ _ _) t) _ _ authenticates t
            (Ensures-AddsTo _ t authenticates (run_password_auth-Ensures js _ _ _ _ _))
            λ t' token (auth, e', a).
              weaken (Returns (λ u _. IsUse token t' u)) _ (use_resource js token) t'
                (IsDemo-of token reg auth t t' e e' r a) (use_resource-IsUse token t')

  -- The last line of a run that met an error.
  pub record IsReported (es : List Event) : Type 0 where
    pub before : List Event
    pub thrown : Thrown
    pub events :
        es
        ≡ before
          ++ printed (error_log (codes "From plissken-js-sdk: " ++ thrown_string thrown)) ∷ []

  abbrev Ends : List Event → Result (Unit {0}) → Type 0
  Ends es r = (r ≡ ok tt) × (IsDemo es ⊎ IsReported es)

  ends :
      (t : List Event) (r : Result (Unit {0}))
      → Returns (λ t _. IsDemo t) t r
      → Handles Ends
          (λ e. prints (error_log (codes "From plissken-js-sdk: " ++ thrown_string e)))
          t
          r
  ends t (ok u) h = (refl, inl h)
  ends t (throw e) h = (refl, inr (record { before = t; thrown = e; events = refl }))

  -- Whatever the servers and the bindings answer, the client does not reject, and its run is one of
  -- two: a registration, an authentication that gave a token, and then a put and a get of the
  -- resource with this very token, each answered with status 200; or a run that ends with a report
  -- of what was thrown.
  pub main-Ends :
      {W : Type 0} (env : Env W) (w : W)
      → ((run env (main js) w).result ≡ ok tt)
        × (IsDemo (run env (main js) w).events ⊎ IsReported (run env (main js) w).events)
  unfolding main
  main-Ends env w =
      Ensures-run Ends env _ w (
        Ensures-try_catch Ends _ (try_main js) []
          (weaken _ _ (try_main js) [] ends try_main-IsDemo))
