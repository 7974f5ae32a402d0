-- ===== src/Sdk/Health.antt =====
-- `check_endpoint_health` of lib.ts.
use plissken.Base.{
  ap, ◌∙◌, ◌≡◌, ◌↔◌, refl, Text, codes, [], ◌∷◌, ◌++◌, ◌==◌, ==_iff, Bool-cases, inl, inr,
  if◌then◌else◌,
}
use plissken.Js.Process.{
  Engine, Result, ok, throw, Thrown, HttpResponse, get, Process, ended, done, throws, ◌>>=◌,
}
use plissken.Js.Run.{sent, Env, run}
use plissken.Sdk.Requests.{check_endpoint_health}

module _ {W : Type 0} (js : Engine) (env : Env W) where
  abbrev tested : (HttpResponse → Thrown) → HttpResponse → Process (Unit {0})
  tested e response = if response.status == 200 then done tt else throws (e response)

  tested_lem :
      (e : HttpResponse → Thrown) (r : Result HttpResponse) (w : W)
      → (((run env (ended r >>= tested e) w).result ≡ ok tt)
          ↔ ((response : HttpResponse) × (r ≡ ok response) × (response.status ≡ 200)))
        × ((run env (ended r >>= tested e) w).events ≡ [])
        × ((run env (ended r >>= tested e) w).world ≡ w)
  unfolding run
  tested_lem e (throw t) w = ((λ h. cc, λ h. cc), refl, refl)
  tested_lem e (ok response) w = elim (Bool-cases (response.status == 200)) [
    | inl good ↦ (
      (λ _. (response, refl, (==_iff response.status 200).0 good), λ _. rw good),
      rw good,
      rw good,
    )
    | inr bad ↦ (
      (
        λ h. let k = rw bad at h in cc,
        λ (x, e, s).
            let same : response ≡ x = cc in
            let k = (==_iff response.status 200).1 (ap (λ y. y.status) same ∙ s) in cc,
      ),
      rw bad,
      rw bad,
    )
  ]

  -- `check_endpoint_health` sends one request, to the health route of the endpoint, and does nothing
  -- else. It returns exactly if this request is answered with status 200.
  pub check_endpoint_health-get :
      (endpoint : Text) (w : W)
      → (((run env (check_endpoint_health js endpoint) w).result ≡ ok tt) ↔ (
          (response : HttpResponse) × ((env.http (get (endpoint ++ codes "/health") []) w).0
            ≡ ok response)
          × (response.status ≡ 200)))
        × ((run env (check_endpoint_health js endpoint) w).events
            ≡ sent
                (get (endpoint ++ codes "/health") [])
                (env.http (get (endpoint ++ codes "/health") []) w).0
              ∷ [])
  unfolding run check_endpoint_health
  check_endpoint_health-get endpoint w =
      let (r, v) = env.http (get (endpoint ++ codes "/health") []) w in
      let (result, events, _) = tested_lem _ r v in
      (result, ap (λ es. sent (get (endpoint ++ codes "/health") []) r ∷ es) events)
