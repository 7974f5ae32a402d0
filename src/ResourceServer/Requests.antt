-- ===== src/ResourceServer/Requests.antt =====
-- The handlers of the resource server, one request at a time.
use plissken.Base.{
  ℕ, arith, ◌≡◌, ◌≢◌, ◌↔◌, refl, sym, ap, [], Option, none, some, false, Text, if◌then◌else◌,
}
use plissken.ResourceServer.{
  Config, PlisskenCheckCredentialsResponseData, Libraries, Request, Written, Local, is_error, just,
  is_options, resource_key, check_credentials, check, value_of, get_rest, put_value, put_rest,
  serve_get_resource, serve_put_resource,
}

-- What miniredis documents of a database in which only texts stand.
pub record StoreLaws {W D : Type 0} (l : Libraries W D) : Type 0 where
  pub set_some :
      (k v : Text) (d : D) → (d' : D) × (l.set k v d ≡ (some tt, d')) × (l.get k d' ≡ (some v, d'))

unauthorized_lem : (b : Text) → just 401 ≢ record { status_code = 200; body = b }
unauthorized_lem b e = let h : ◌≡◌ {A = ℕ} 401 200 = ap (λ x. x.status_code) e in ground arith

server_error_lem : (b : Text) → just 500 ≢ record { status_code = 200; body = b }
server_error_lem b e = let h : ◌≡◌ {A = ℕ} 500 200 = ap (λ x. x.status_code) e in ground arith

failed_lem : just 500 ≢ just 401
failed_lem e = let h : ◌≡◌ {A = ℕ} 500 401 = ap (λ x. x.status_code) e in ground arith

module _ {W D : Type 0} (l : Libraries W D) (cfg : Config) where
  abbrev credentials : Request → W → Option PlisskenCheckCredentialsResponseData × W
  credentials req w = check_credentials l cfg req.username req.session_token w

  abbrev answer : Option PlisskenCheckCredentialsResponseData → Option Text → Written
  answer r v = if is_error r then just 401 else value_of l v

  answer_lem :
      (r : Option PlisskenCheckCredentialsResponseData) (v : Option Text) (b : Text)
      → (answer r v ≡ record { status_code = 200; body = b }) ↔ (
          (c : PlisskenCheckCredentialsResponseData) × (val : Text) × (r ≡ some c)
          × (v ≡ some val)
          × (l.formatted val ≡ b))
  answer_lem none v b = (λ e. absurd (unauthorized_lem b e), λ h. cc)
  answer_lem (some c) none b = (λ e. absurd (server_error_lem b e), λ h. cc)
  answer_lem (some c) (some val) b = (λ e. (c, val, refl, refl, ap (λ x. x.body) e), λ h. cc)

  get_rest-answer :
      (req : Request) (r : Option PlisskenCheckCredentialsResponseData) (w : W) (s : Local D)
      → (get_rest l req (w, record s { err = is_error r })).0
        ≡ answer r (l.get (resource_key req.username) s.store).0
  unfolding get_rest
  get_rest-answer req none w s = refl
  get_rest-answer req (some c) w s = refl

  -- A request for a resource, served while no other one is, is answered with status 200 and a body
  -- exactly if the auth server vouches for the user with the session token, and the body is what
  -- `Fprintf` makes of the user's value. The method is not OPTIONS.
  pub serve_get_resource-credentials :
      (req : Request) (w : W) (s : Local D) (body : Text)
      → is_options req ≡ false
      → ((serve_get_resource l cfg req (w, s)).0 ≡ record { status_code = 200; body = body }) ↔ (
          (c : PlisskenCheckCredentialsResponseData) × (val : Text) × ((credentials req w).0
            ≡ some c)
          × ((l.get (resource_key req.username) s.store).0 ≡ some val)
          × (l.formatted val ≡ body))
  unfolding serve_get_resource check
  serve_get_resource-credentials req w s body e =
      rw (e, get_rest-answer req (credentials req w).0 (credentials req w).1 s)
        (answer_lem (credentials req w).0 (l.get (resource_key req.username) s.store).0 body)

  abbrev put_answer : Option PlisskenCheckCredentialsResponseData → Option (Unit {0}) → Written
  put_answer r v = if is_error r then just 401 else if is_error v then just 500 else just 200

  put_answer_lem :
      (r : Option PlisskenCheckCredentialsResponseData) (v : Option (Unit {0}))
      → (put_answer r v ≡ just 200)
        ↔ ((c : PlisskenCheckCredentialsResponseData) × (r ≡ some c) × (v ≡ some tt))
  put_answer_lem none v = (λ e. absurd (unauthorized_lem [] e), λ h. cc)
  put_answer_lem (some c) none = (λ e. absurd (server_error_lem [] e), λ h. cc)
  put_answer_lem (some c) (some tt) = (λ e. (c, refl, refl), λ h. refl)

  put_rest-answer :
      (req : Request) (r : Option PlisskenCheckCredentialsResponseData) (w : W) (s : Local D)
      → (if is_error r
          then (just 401, (w, record s { err = is_error r }))
          else put_rest l (put_value l req (w, record s { err = is_error r }))).0
        ≡ put_answer r (l.set (resource_key req.username) req.ts s.store).0
  unfolding put_rest put_value
  put_rest-answer req none w s = refl
  put_rest-answer req (some c) w s = refl

  put_refused_lem :
      (r : Option PlisskenCheckCredentialsResponseData) (v : Option (Unit {0}))
      → (put_answer r v ≡ just 401) ↔ (r ≡ none)
  put_refused_lem none v = (λ e. refl, λ h. refl)
  put_refused_lem (some c) none = (λ e. absurd (failed_lem e), λ h. cc)
  put_refused_lem (some c) (some tt) = (λ e. absurd (unauthorized_lem [] (sym e)), λ h. cc)

  put_rest-store :
      (req : Request) (r : Option PlisskenCheckCredentialsResponseData) (w : W) (s : Local D)
      → (if is_error r
          then (just 401, (w, record s { err = is_error r }))
          else put_rest l (put_value l req (w, record s { err = is_error r }))).1.1.store
        ≡ (if is_error r then s.store else (l.set (resource_key req.username) req.ts s.store).1)
  unfolding put_rest put_value
  put_rest-store req none w s = refl
  put_rest-store req (some c) w s = refl

  -- A request to put a resource, served while no other one is, is answered with status 200 exactly if
  -- the auth server vouches for the user with the session token and miniredis stores the value, and
  -- with status 401 exactly if the auth server does not vouch for the user. In that case the stored
  -- values stay as they are, and otherwise they are what miniredis leaves. The method is not OPTIONS.
  pub serve_put_resource-credentials :
      (req : Request) (w : W) (s : Local D)
      → is_options req ≡ false
      → (((serve_put_resource l cfg req (w, s)).0 ≡ just 200) ↔ (
          (c : PlisskenCheckCredentialsResponseData) × ((credentials req w).0 ≡ some c)
          × ((l.set (resource_key req.username) req.ts s.store).0 ≡ some tt)))
        × (((serve_put_resource l cfg req (w, s)).0 ≡ just 401) ↔ ((credentials req w).0 ≡ none))
        × ((serve_put_resource l cfg req (w, s)).1.1.store ≡ (
            if is_error (credentials req w).0
            then s.store
            else (l.set (resource_key req.username) req.ts s.store).1))
  unfolding serve_put_resource check
  serve_put_resource-credentials req w s e =
      let (r, w') = credentials req w in
      let v = (l.set (resource_key req.username) req.ts s.store).0 in
      (
        rw (e, put_rest-answer req r w' s) (put_answer_lem r v),
        rw (e, put_rest-answer req r w' s) (put_refused_lem r v),
        rw e (put_rest-store req r w' s),
      )

  -- For a user whom the auth server vouches for, first for putting and then for getting, a text that
  -- was put, each request served while no other one is, is what `Fprintf` is given for the answer.
  -- No method is OPTIONS, and miniredis satisfies its laws.
  pub serve_get_resource-serve_put_resource :
      StoreLaws l
      → (put got : Request) (w w₁ w₂ : W) (s : Local D)
        (c c' : PlisskenCheckCredentialsResponseData)
      → is_options put ≡ false
      → is_options got ≡ false
      → got.username ≡ put.username
      → credentials put w ≡ (some c, w₁)
      → credentials got w₁ ≡ (some c', w₂)
      → (d : D) × (serve_put_resource l cfg put (w, s)
          ≡ (just 200, (w₁, record { err = false; store = d })))
        × (serve_get_resource l cfg got (w₁, record { err = false; store = d }) ≡ (
          record { status_code = 200; body = l.formatted put.ts },
          (w₂, record { err = false; store = d }),
        ))
  unfolding serve_put_resource serve_get_resource check put_value put_rest get_rest
  serve_get_resource-serve_put_resource laws put got w w₁ w₂ s c c' ep eg same e₁ e₂ =
      let (d, sets, gets) = laws.set_some (resource_key put.username) put.ts s.store in
      (d, rw (ep, e₁, sets), rw (eg, e₂, same, gets))
