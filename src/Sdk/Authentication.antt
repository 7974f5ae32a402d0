-- ===== src/Sdk/Authentication.antt =====
-- What has happened when `run_password_auth` returns.
use plissken.Base.{◌≡◌, Text, codes, [], ◌∷◌, ◌++◌, List}
use plissken.Json.{Json}
use plissken.Js.Process.{
  Engine, ok, HttpResponse, Request, post, Call, make_oprf_request,
  finalize_password_authentication, log,
}
use plissken.Js.Run.{Event, printed, called, sent, Env, run}
use plissken.Js.Ensures.{Ensures, Returns, on_call, on_ok, then-Returns, returned}
use plissken.Sdk.Classes.{
  OprfRequestResult, StartPasswordAuthenticationData, new_request_result, new_start_data,
  request_json, start_data_json, finalize_json,
}
use plissken.Sdk.Replies.{
  IsRead, IsAccepted, start_password_auth-IsRead, finalize_password_auth-IsAccepted,
}
use plissken.Sdk.Requests.{start_password_auth, finalize_password_auth}
use plissken.Sdk.Protocol.{run_password_auth}

module _ (js : Engine) (apptoken username password server_pub_key endpoint : Text) where
  abbrev pub start_auth : OprfRequestResult → Request
  start_auth request =
      post (endpoint ++ codes "/start_password_authentication")
        (js.stringify (request_json request))

  abbrev pub finalize_call : OprfRequestResult → StartPasswordAuthenticationData → Call
  finalize_call request d =
      finalize_password_authentication username (js.stringify (request_json request))
        (js.stringify (start_data_json d)) server_pub_key

  abbrev pub finalize_auth : Text → Request
  finalize_auth token = post (endpoint ++ codes "/finalize_password_authentication") (
      js.stringify (
        finalize_json (record { apptoken = apptoken; username = username; session_token = token })))

  -- The protocol of an authentication: the bindings make a request of the user name and the
  -- password, the server answers it with status 200, the bindings make the session token of the
  -- answer, and the server confirms the token with status 200.
  pub record IsAuthentication (es : List Event) (token : Text) : Type 0 where
    pub made : Text
    pub document : Json
    pub request : OprfRequestResult
    pub started : HttpResponse
    pub start_data : StartPasswordAuthenticationData
    pub finalized : HttpResponse
    pub parsed : js.parse made ≡ ok document
    pub read : new_request_result js document ≡ ok request
    pub started_ok : started.status ≡ 200
    pub start_read : new_start_data js started.body ≡ ok start_data
    pub finalized_ok : finalized.status ≡ 200
    pub events :
        es
        ≡ printed (log (codes "Making password authentication request with password: " ++ password))
          ∷ called (make_oprf_request apptoken username password) (ok made)
          ∷ sent (start_auth request) (ok started)
          ∷ called (finalize_call request start_data) (ok token)
          ∷ sent (finalize_auth token) (ok finalized)
          ∷ printed (log (codes "session_token: " ++ token))
          ∷ []

  abbrev pub announced : List Event
  announced =
      printed (log (codes "Making password authentication request with password: " ++ password))
      ∷ []

  abbrev pub until_made : Text → List Event
  until_made made =
      announced ++ called (make_oprf_request apptoken username password) (ok made) ∷ []

  assembled :
      (made token : Text) {document : Json} {request : OprfRequestResult}
      {d : StartPasswordAuthenticationData} {t t' : List Event}
      → js.parse made ≡ ok document
      → new_request_result js document ≡ ok request
      → IsRead (start_auth request) (λ r. new_start_data js r.body) d (until_made made) t
      → IsAccepted (finalize_auth token) (t ++ called (finalize_call request d) (ok token) ∷ []) t'
      → IsAuthentication (t' ++ printed (log (codes "session_token: " ++ token)) ∷ []) token
  assembled made token parsed read h k = record {
    made = made;
    document = _;
    request = _;
    started = h.accepted.response;
    start_data = _;
    finalized = k.response;
    parsed = parsed;
    read = read;
    started_ok = h.accepted.status;
    start_read = h.body;
    finalized_ok = k.status;
    events = rw (k.events, h.accepted.events);
  }

  pub run_password_auth-Ensures :
      Ensures
        (Returns IsAuthentication)
        []
        (run_password_auth js apptoken username password server_pub_key endpoint)
  unfolding run_password_auth
  run_password_auth-Ensures =
      on_call _ announced (make_oprf_request apptoken username password) _ λ made.
        on_ok _ _ (js.parse made) _ λ document parsed.
          on_ok _ _ (new_request_result js document) _ λ request read.
            then-Returns _ _ _ (start_password_auth js endpoint request) _
              (start_password_auth-IsRead js endpoint _ request)
              λ t d h. on_call _ _ _ _ λ token.
                then-Returns _ _ _ (finalize_password_auth js endpoint _) _
                  (finalize_password_auth-IsAccepted js endpoint _ _)
                  λ t' _ k. assembled made token parsed read h k

  -- If `run_password_auth` returns a token, then its run was the protocol of an authentication
  -- that ends with this token, and nothing else was called, sent or printed.
  pub run_password_auth-IsAuthentication :
      {W : Type 0} (env : Env W) (w : W) (token : Text)
      → (run env (run_password_auth js apptoken username password server_pub_key endpoint) w).result
        ≡ ok token
      → IsAuthentication
          (run env
            (run_password_auth js apptoken username password server_pub_key endpoint)
            w).events
          token
  run_password_auth-IsAuthentication env w token e =
      returned IsAuthentication env _ w token run_password_auth-Ensures e
