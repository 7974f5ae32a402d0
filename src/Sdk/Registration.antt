-- ===== src/Sdk/Registration.antt =====
-- What has happened when `run_password_reg` returns.
use plissken.Base.{◌≡◌, Text, codes, [], ◌∷◌, ◌++◌, List}
use plissken.Json.{Json}
use plissken.Js.Process.{
  Engine, ok, HttpResponse, Request, post, Call, make_oprf_request, finalize_password_registration,
  log,
}
use plissken.Js.Run.{Event, printed, called, sent, Env, run}
use plissken.Js.Ensures.{Ensures, Returns, on_call, on_ok, then-Returns, returned}
use plissken.Sdk.Classes.{
  OprfRequestResult, OprfServerEvaluation, PasswordRegistrationData, new_request_result,
  new_server_evaluation, new_registration_data, request_json, evaluation_json, registration_json,
}
use plissken.Sdk.Replies.{
  IsAnswered, IsAccepted, start_password_reg-IsAnswered, finalize_password_reg-IsAccepted,
}
use plissken.Sdk.Requests.{start_password_reg, finalize_password_reg}
use plissken.Sdk.Protocol.{run_password_reg}

module _ (js : Engine) (apptoken username password server_pub_key endpoint : Text) where
  abbrev pub start_reg : OprfRequestResult → Request
  start_reg request =
      post (endpoint ++ codes "/start_password_registration") (js.stringify (request_json request))

  abbrev pub finalize_call : OprfRequestResult → OprfServerEvaluation → Call
  finalize_call request d =
      finalize_password_registration apptoken username (js.stringify (request_json request))
        (js.stringify (evaluation_json d)) server_pub_key

  abbrev pub finalize_reg : PasswordRegistrationData → Request
  finalize_reg d =
      post (endpoint ++ codes "/finalize_password_registration")
        (js.stringify (registration_json d))

  -- The protocol of a registration: the bindings make a request of the user name and the password,
  -- the server answers it with an evaluation, the bindings make the registration's document of it,
  -- and the server accepts the fields of that with status 200.
  pub record IsRegistration (es : List Event) : Type 0 where
    pub made : Text
    pub document : Json
    pub request : OprfRequestResult
    pub started : HttpResponse
    pub evaluation : OprfServerEvaluation
    pub finalized : Text
    pub registration : Json
    pub registration_data : PasswordRegistrationData
    pub accepted : HttpResponse
    pub parsed : js.parse made ≡ ok document
    pub read : new_request_result js document ≡ ok request
    pub start_read : new_server_evaluation js started.body ≡ ok evaluation
    pub finalized_parsed : js.parse finalized ≡ ok registration
    pub finalized_read : new_registration_data js registration ≡ ok registration_data
    pub accepted_ok : accepted.status ≡ 200
    pub events :
        es
        ≡ printed (log (codes "Making password registration request with password: " ++ password))
          ∷ called (make_oprf_request apptoken username password) (ok made)
          ∷ sent (start_reg request) (ok started)
          ∷ called (finalize_call request evaluation) (ok finalized)
          ∷ sent (finalize_reg registration_data) (ok accepted)
          ∷ printed (log (codes "Password registration successful"))
          ∷ []

  abbrev pub announced : List Event
  announced =
      printed (log (codes "Making password registration request with password: " ++ password)) ∷ []

  abbrev pub until_made : Text → List Event
  until_made made =
      announced ++ called (make_oprf_request apptoken username password) (ok made) ∷ []

  assembled :
      (made finalized : Text) {document registration : Json} {request : OprfRequestResult}
      {evaluation : OprfServerEvaluation} {d : PasswordRegistrationData} {t t' : List Event}
      → js.parse made ≡ ok document
      → new_request_result js document ≡ ok request
      → IsAnswered
          (start_reg request)
          (λ r. new_server_evaluation js r.body)
          evaluation
          (until_made made)
          t
      → js.parse finalized ≡ ok registration
      → new_registration_data js registration ≡ ok d
      → IsAccepted
          (finalize_reg d)
          (t ++ called (finalize_call request evaluation) (ok finalized) ∷ [])
          t'
      → IsRegistration (t' ++ printed (log (codes "Password registration successful")) ∷ [])
  assembled made finalized parsed read h parsed' read' k = record {
    made = made;
    document = _;
    request = _;
    started = h.response;
    evaluation = _;
    finalized = finalized;
    registration = _;
    registration_data = _;
    accepted = k.response;
    parsed = parsed;
    read = read;
    start_read = h.body;
    finalized_parsed = parsed';
    finalized_read = read';
    accepted_ok = k.status;
    events = rw (k.events, h.events);
  }

  pub run_password_reg-Ensures :
      Ensures
        (Returns (λ t _. IsRegistration t))
        []
        (run_password_reg js apptoken username password server_pub_key endpoint)
  unfolding run_password_reg
  run_password_reg-Ensures =
      on_call _ announced (make_oprf_request apptoken username password) _ λ made.
        on_ok _ _ (js.parse made) _ λ document parsed.
          on_ok _ _ (new_request_result js document) _ λ request read.
            then-Returns _ _ _ (start_password_reg js endpoint request) _
              (start_password_reg-IsAnswered js endpoint _ request)
              λ t d h. on_call _ _ _ _ λ finalized.
                on_ok _ _ (js.parse finalized) _ λ registration parsed'.
                  on_ok _ _ (new_registration_data js registration) _ λ data' read'.
                    then-Returns _ _ _ (finalize_password_reg js endpoint data') _
                      (finalize_password_reg-IsAccepted js endpoint _ data')
                      λ t' _ k. assembled made finalized parsed read h parsed' read' k

  -- If `run_password_reg` returns, then its run was the protocol of a registration, and nothing else
  -- was called, sent or printed.
  pub run_password_reg-IsRegistration :
      {W : Type 0} (env : Env W) (w : W)
      → (run env (run_password_reg js apptoken username password server_pub_key endpoint) w).result
        ≡ ok tt
      → IsRegistration
          (run env
            (run_password_reg js apptoken username password server_pub_key endpoint)
            w).events
  run_password_reg-IsRegistration env w e =
      returned (λ t _. IsRegistration t) env _ w tt run_password_reg-Ensures e
