-- ===== src/AuthServer/Login.antt =====
-- What a finished authentication has checked and left behind.
use plissken.Base.{
  ℕ, ◌≡◌, ◌↔◌, refl, subst, sym, ap, ◌∙◌, Option, none, some, Text, codes, Bool, true, false,
  text_eq, if◌then◌else◌,
}
use plissken.Opaque.Go.{Bytes}
use plissken.Opaque.Primitives.{Primitives}
use plissken.Opaque.Server.{World, Server, of_store, is_authenticated}
use plissken.Opaque.Acceptance.{IsAccepted, is_authenticated-IsAccepted}
use plissken.AuthServer.Redis.{Redis, RedisLaws, Encodings, Value}
use plissken.AuthServer.RedisWrapper.{
  redis_storage, session_token_key, store_session_token, has_session_token,
}
use plissken.Common.Codec.{FinalizePasswordAuthData}
use plissken.AuthServer.Handlers.{
  Reply, status, text, abort, reply, try, continue_or, default_expiry_duration,
  handle_finalize_password_authentication,
}

continue_or-status :
    {W E A : Type 0} (n m : ℕ) (t : Option Text) (k : A → W → Reply E × W) (a : Option A) (w : W)
    → (continue_or (abort n t) k a w).0 ≡ status m
    → (x : A) × (a ≡ some x) × (continue_or (abort n t) k a w ≡ k x w)
continue_or-status n m t k none w e = cc
continue_or-status n m t k (some x) w e = (x, refl, refl)

module _ {R D : Type 0} (p : Primitives R) (r : Redis D) (c : Encodings) (s : Server)
    {value : D → Text → Option Value} (rl : RedisLaws r value) where
  module _ (req : FinalizePasswordAuthData) where
    -- The end of `handle_finalize_password_authentication`.
    abbrev save : Bool → World R D → Reply p.Element × World R D
    save ok =
        if ok
        then try
            (of_store (
              store_session_token r c req.app_token req.username req.session_token
                default_expiry_duration))
            (abort 500 (some (codes "while saving session token"))) (λ _. reply (status 200))
        else reply (text 401 (codes "Session token is invalid"))

    abbrev check : Bytes → World R D → Reply p.Element × World R D
    check b =
        try (is_authenticated p (redis_storage r c) s req.app_token req.username b)
          (abort 400 (some (codes "while checking session token"))) save

    save_lem :
        (ok : Bool) (w : World R D)
        → (save ok w).0 ≡ status 200
        → (ok ≡ true)
          × ((t : Text)
              → has_session_token r c req.app_token req.username t (save ok w).1.store
                ≡ (some (text_eq req.session_token t), (save ok w).1.store))
    unfolding store_session_token has_session_token
    save_lem true w e =
        let k = session_token_key req.app_token req.username in
        let (d', e₁, v, _) = rl.set_expiring_value k req.session_token 900 w.store in
        (refl, λ t. rw (e₁, rl.get_value k req.session_token d' v))
    save_lem false w e = cc

  finished_lem :
      (req : FinalizePasswordAuthData) (w : World R D)
      → (handle_finalize_password_authentication p r c s (some req) w).0 ≡ status 200
      → (b : Bytes) × (c.hex.decode req.session_token ≡ some b)
        × IsAccepted p (redis_storage r c) s req.app_token req.username b w.store
        × ((t : Text)
            → has_session_token r c req.app_token req.username t
                (handle_finalize_password_authentication p r c s (some req) w).1.store
              ≡ (
                some (text_eq req.session_token t),
                (handle_finalize_password_authentication p r c s (some req) w).1.store,
              ))
  unfolding handle_finalize_password_authentication
  finished_lem req w e =
      let (b, e₁, s₁) =
        continue_or-status 400 200 (some (codes "session token is bad")) (check req)
          (c.hex.decode req.session_token) w e in
      let a = is_authenticated p (redis_storage r c) s req.app_token req.username b w in
      let f₁ : (check req b w).0 ≡ status 200 = ap (λ z. z.0) (sym s₁) ∙ e in
      let (ok, e₂, s₂) =
        continue_or-status 400 200 (some (codes "while checking session token")) (save req) a.0 a.1
          f₁ in
      let f₂ : (save req ok a.1).0 ≡ status 200 = ap (λ z. z.0) (sym s₂) ∙ f₁ in
      let (is_ok, has) = save_lem req ok a.1 f₂ in
      (
        b,
        e₁,
        (is_authenticated-IsAccepted p (redis_storage r c) s req.app_token req.username b w).0.0
            (e₂ ∙ ap some is_ok),
        λ t. rw (s₁, s₂, has t),
      )

  -- The last step of an authentication replies with status 200 exactly if the session token is the hex
  -- form of one that the server accepts.
  pub handle_finalize_password_authentication-IsAccepted :
      (req : FinalizePasswordAuthData) (w : World R D)
      → ((handle_finalize_password_authentication p r c s (some req) w).0 ≡ status 200) ↔ (
          (b : Bytes) × (c.hex.decode req.session_token ≡ some b)
          × IsAccepted p (redis_storage r c) s req.app_token req.username b w.store)
  unfolding handle_finalize_password_authentication store_session_token
  handle_finalize_password_authentication-IsAccepted req w = (
    λ e. let (b, d, a, _) = finished_lem req w e in (b, d, a),
    λ h.
        let ok =
          (is_authenticated-IsAccepted p (redis_storage r c) s req.app_token req.username h.0 w).0.1
            h.2 in
        let a = is_authenticated p (redis_storage r c) s req.app_token req.username h.0 w in
        let (d', e, _, _) =
          rl.set_expiring_value (session_token_key req.app_token req.username) req.session_token 900
            a.1.store in
        rw (h.1, ok, e),
  )

  -- Right after an authentication whose last step has replied with status 200, the storage has its
  -- session token for the user, and no other.
  pub has_session_token-handle_finalize_password_authentication :
      (req : FinalizePasswordAuthData) (w w' : World R D)
      → handle_finalize_password_authentication p r c s (some req) w ≡ (status 200, w')
      → (t : Text)
      → has_session_token r c req.app_token req.username t w'.store
        ≡ (some (text_eq req.session_token t), w'.store)
  has_session_token-handle_finalize_password_authentication req w w' e t =
      subst
        (λ v.
          has_session_token r c req.app_token req.username t v.store
          ≡ (some (text_eq req.session_token t), v.store))
        (ap (λ z. z.1) e) ((finished_lem req w (ap (λ z. z.0) e)).3 t)
