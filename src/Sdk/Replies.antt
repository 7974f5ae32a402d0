-- ===== src/Sdk/Replies.antt =====
-- What each request of lib.ts has seen when it returns.
use plissken.Base.{◌≡◌, refl, true, Text, codes, List, [], ◌∷◌, ◌++◌, ◌==◌, ==_iff}
use plissken.Js.Process.{
  Engine, Result, ok, throw, HttpResponse, Request, get, post, throws, recover, Thrown, response_of,
}
use plissken.Js.Run.{Event, sent}
use plissken.Js.Ensures.{Ensures, Returns, on_send, on_test}
use plissken.Sdk.Classes.{
  OprfRequestResult, PasswordRegistrationData, FinalizePasswordAutheticationData,
  new_server_evaluation, new_start_data, request_json, registration_json, finalize_json,
}
use plissken.Sdk.Requests.{
  check_endpoint_health, start_password_auth, finalize_password_auth, start_password_reg,
  finalize_password_reg, rethrown,
}

-- One request has been sent after the events `before`, and answered with status 200.
pub record IsAccepted (q : Request) (before es : List Event) : Type 0 where
  pub response : HttpResponse
  pub status : response.status ≡ 200
  pub events : es ≡ before ++ sent q (ok response) ∷ []

-- The same, and the body of the answer has been read as `d`.
pub record IsRead {A : Type 0} (q : Request) (read : HttpResponse → Result A) (d : A)
    (before es : List Event) : Type 0 where
  pub accepted : IsAccepted q before es
  pub body : read accepted.response ≡ ok d

accepted :
    (q : Request) (before : List Event) (r : HttpResponse)
    → (r.status == 200) ≡ true
    → IsAccepted q before (before ++ sent q (ok r) ∷ [])
accepted q before r same = record { response = r; status = (==_iff _ _).0 same; events = refl }

-- The answer of the registration's first route may have any status that axios does not throw.
pub record IsAnswered {A : Type 0} (q : Request) (read : HttpResponse → Result A) (d : A)
    (before es : List Event) : Type 0 where
  pub response : HttpResponse
  pub body : read response ≡ ok d
  pub events : es ≡ before ++ sent q (ok response) ∷ []

pub check_endpoint_health-IsAccepted :
    (js : Engine) (endpoint : Text) (es : List Event)
    → Ensures
        (Returns (λ t _. IsAccepted (get (endpoint ++ codes "/health") []) es t))
        es
        (check_endpoint_health js endpoint)
unfolding check_endpoint_health
check_endpoint_health-IsAccepted js endpoint es =
    on_send _ _ _ _ λ response. on_test _ _ _ _ _ (λ same. accepted _ es response same) (λ _. tt)

module _ (js : Engine) (endpoint : Text) (es : List Event) where
  Returns-IsRead :
      {A : Type 0} (q : Request) (read : HttpResponse → Result A) (response : HttpResponse)
      → (response.status == 200) ≡ true
      → (r : Result A) → read response ≡ r
      → Returns (λ t a. IsRead q read a es t) (es ++ sent q (ok response) ∷ []) r
  unfolding accepted
  Returns-IsRead q read response same (ok a) e = record {
    accepted = accepted q es response same;
    body = e;
  }
  Returns-IsRead q read response same (throw x) e = tt

  pub start_password_auth-IsRead :
      (d : OprfRequestResult)
      → Ensures
          (Returns λ t a.
            IsRead
              (post
                (endpoint ++ codes "/start_password_authentication")
                (js.stringify (request_json d)))
              (λ r. new_start_data js r.body)
              a
              es
              t)
          es
          (start_password_auth js endpoint d)
  unfolding start_password_auth
  start_password_auth-IsRead d = on_send _ _ _ _ λ response.
      on_test _ _ _ _ _
        (λ same. Returns-IsRead _ (λ r. new_start_data js r.body) response same _ refl) (λ _. tt)

  pub finalize_password_auth-IsAccepted :
      (d : FinalizePasswordAutheticationData)
      → Ensures
          (Returns λ t _.
            IsAccepted
              (post
                (endpoint ++ codes "/finalize_password_authentication")
                (js.stringify (finalize_json d)))
              es
              t)
          es
          (finalize_password_auth js endpoint d)
  unfolding finalize_password_auth
  finalize_password_auth-IsAccepted d =
      on_send _ _ _ _ λ response. on_test _ _ _ _ _ (λ same. accepted _ es response same) (λ _. tt)

  pub finalize_password_reg-IsAccepted :
      (d : PasswordRegistrationData)
      → Ensures
          (Returns λ t _.
            IsAccepted
              (post
                (endpoint ++ codes "/finalize_password_registration")
                (js.stringify (registration_json d)))
              es
              t)
          es
          (finalize_password_reg js endpoint d)
  unfolding finalize_password_reg
  finalize_password_reg-IsAccepted d =
      on_send _ _ _ _ λ response. on_test _ _ _ _ _ (λ same. accepted _ es response same) (λ _. tt)

  answered :
      {A : Type 0} (q : Request) (read : HttpResponse → Result A) (h : Thrown → Thrown)
      (response : HttpResponse) (r : Result A)
      → read response ≡ r
      → Ensures
          (Returns (λ t a. IsAnswered q read a es t))
          (es ++ sent q (ok response) ∷ [])
          (recover r (λ e. throws (h e)))
  answered q read h response (ok a) e = record { response = response; body = e; events = refl }
  answered q read h response (throw x) e = tt

  pub start_password_reg-IsAnswered :
      (d : OprfRequestResult)
      → Ensures
          (Returns λ t a.
            IsAnswered
              (post
                (endpoint ++ codes "/start_password_registration")
                (js.stringify (request_json d)))
              (λ r. new_server_evaluation js r.body)
              a
              es
              t)
          es
          (start_password_reg js endpoint d)
  unfolding start_password_reg
  start_password_reg-IsAnswered d (ok response) =
      answered _ (λ r. new_server_evaluation js r.body) (λ e. rethrown js e (response_of e))
        response _ refl
  start_password_reg-IsAnswered d (throw e) = tt
