-- ===== src/ResourceServer/Interleaved.antt =====
-- The handlers of the resource server as they run side by side: each assigns the variable `err` of
-- `main` and tests it later.
use plissken.Base.{
  ◌≡◌, refl, subst, none, some, true, false, List, [], ◌∷◌, ◌++◌, Text, if◌then◌else◌,
}
use plissken.ResourceServer.{
  Config, PlisskenCheckCredentialsResponseData, Libraries, Request, Written, Local, just,
  is_options, resource_key, check_credentials, check, get_rest, put_value, put_rest,
}

pub data Route : Type 0 where
  get_resource put_resource : Route

-- A request whose handler runs, and how far it is: before the check of the credentials, after it
-- before the test of `err`, and after the value was put before the test of `err`.
pub data Running : Type 0 where
  started : Route → Request → Running
  get_checked put_checked put_stored : Request → Running

pub data Progress : Type 0 where
  waits : Running → Progress
  answers : Written → Progress

abbrev pub request_of : Running → Request
request_of (started route req) = req
request_of (get_checked req) = req
request_of (put_checked req) = req
request_of (put_stored req) = req

abbrev pub checked : Route → Request → Running
checked get_resource req = get_checked req
checked put_resource req = put_checked req

-- The replies go with their requests, the last first.
pub record Serving (W D : Type 0) : Type 0 where
  pub state : W × Local D
  pub running : List Running
  pub answered : List (Request × Written)

module _ {W D : Type 0} where
  abbrev pub answered_with : Written × (W × Local D) → Progress × (W × Local D)
  answered_with (a, s) = (answers a, s)

module _ {W D : Type 0} (l : Libraries W D) (cfg : Config) where
  -- One step of a handler.
  unfoldable pub advance : Running → W × Local D → Progress × (W × Local D)
  advance (started route req) s =
      if is_options req
      then (answers (just 200), s)
      else (waits (checked route req), check l cfg req s)
  advance (get_checked req) s = answered_with (get_rest l req s)
  advance (put_checked req) s =
      if s.1.err then (answers (just 401), s) else (waits (put_stored req), put_value l req s)
  advance (put_stored req) s = answered_with (put_rest l s)

  abbrev pub resume :
      Serving W D → (xs ys : List Running) → Running → Progress × (W × Local D) → Serving W D
  resume t xs ys q (waits q', s) = record {
    state = s;
    running = xs ++ q' ∷ ys;
    answered = t.answered;
  }
  resume t xs ys q (answers a, s) = record {
    state = s;
    running = xs ++ ys;
    answered = (request_of q, a) ∷ t.answered;
  }

  pub data Step : Serving W D → Serving W D → Type 0 where
    arrives :
        {t : Serving W D} (route : Route) (req : Request)
        → Step t (record t { running = started route req ∷ t.running })
    advances :
        {t : Serving W D} (xs ys : List Running) (q : Running)
        → t.running ≡ xs ++ q ∷ ys
        → Step t (resume t xs ys q (advance q t.state))

  pub data Steps : Serving W D → Serving W D → Type 0 where
    rest : {t : Serving W D} → Steps t t
    next : {t u v : Serving W D} → Step t u → Steps u v → Steps t v

  step_lem :
      {t : Serving W D} (xs ys : List Running) (q : Running) (r : Progress × (W × Local D))
      → t.running ≡ xs ++ q ∷ ys
      → advance q t.state ≡ r
      → Step t (resume t xs ys q r)
  step_lem {t = t} xs ys q r e h = subst (λ x. Step t (resume t xs ys q x)) h (advances xs ys q e)

  -- Two requests for resources arrive, for none of which the method is OPTIONS. The auth server does
  -- not vouch for the first, and then it vouches for the second. Then there are steps after which the
  -- first is answered with status 200 and the value of the user that it names.
  pub Steps-unauthorized :
      (bad good : Request) (w w₁ w₂ : W) (c : PlisskenCheckCredentialsResponseData) (val : Text)
      (s : Local D) (d : D)
      → is_options bad ≡ false
      → is_options good ≡ false
      → check_credentials l cfg bad.username bad.session_token w ≡ (none, w₁)
      → check_credentials l cfg good.username good.session_token w₁ ≡ (some c, w₂)
      → l.get (resource_key bad.username) s.store ≡ (some val, d)
      → (t : Serving W D) × Steps (record { state = (w, s); running = []; answered = [] }) t
        × (t.answered ≡ (bad, record { status_code = 200; body = l.formatted val }) ∷ [])
  unfolding advance check get_rest
  Steps-unauthorized bad good w w₁ w₂ c val s d eb eg e₁ e₂ e₃ = (
    _,
    next (arrives get_resource bad) (
        next (arrives get_resource good) (
          next
            (step_lem (started get_resource good ∷ []) [] (started get_resource bad)
              (waits (get_checked bad), (w₁, record { err = true; store = s.store })) refl
              (rw (eb, e₁)))
            (next
              (step_lem [] (get_checked bad ∷ []) (started get_resource good)
                (waits (get_checked good), (w₂, record { err = false; store = s.store })) refl
                (rw (eg, e₂)))
              (next
                (step_lem (get_checked good ∷ []) [] (get_checked bad)
                  (
                    answers (record { status_code = 200; body = l.formatted val }),
                    (w₂, record { err = false; store = d }),
                  )
                  refl (rw e₃))
                rest)))),
    refl,
  )
