-- ===== src/AuthServer/Kept.antt =====
-- The effects of the operations of the storage in Redis.
use plissken.Base.{
  ℕ, zero, suc, Bool-cases, inl, inr, ◌≡◌, ◌≢◌, refl, ap, ◌∙◌, Option, none, some, List, [], ◌∷◌,
  Text, text_eq, ◌==◌, arith,
}
use plissken.Opaque.Go.{Bytes, take}
use plissken.Opaque.Server.{UserRequest, UserEnvelope}
use plissken.AuthServer.Redis.{
  Redis, RedisLaws, Encodings, EncodingLaws, Value, string, list, entries,
}
use plissken.AuthServer.RedisWrapper.{
  user_envelope_key, user_request_key, auth_nonces_key, session_token_key, app_secret_key,
  store_user_request, load_user_request, store_user_envelope, load_user_envelope, store_auth_nonce,
  store_session_token, has_session_token,
}

abbrev initial : Text → ℕ
initial [] = 0
initial (c ∷ t) = c

abbrev second : Text → ℕ
second [] = 0
second (c ∷ t) = initial t

request_key-nonces_key : (a u a' u' : Text) → auth_nonces_key a u ≢ user_request_key a' u'
unfolding auth_nonces_key user_request_key
request_key-nonces_key a u a' u' e = let h : ◌≡◌ {A = ℕ} 97 114 = ap initial e in ground arith

pub envelope_key-nonces_key : (a u a' u' : Text) → auth_nonces_key a u ≢ user_envelope_key a' u'
unfolding auth_nonces_key user_envelope_key
envelope_key-nonces_key a u a' u' e = let h : ◌≡◌ {A = ℕ} 97 114 = ap initial e in ground arith

session_token_key-nonces_key : (a u a' u' : Text) → auth_nonces_key a u ≢ session_token_key a' u'
unfolding auth_nonces_key session_token_key
session_token_key-nonces_key a u a' u' e = let h : ◌≡◌ {A = ℕ} 97 116 = ap initial e in ground arith

session_token_key-envelope_key :
    (a u a' u' : Text) → user_envelope_key a u ≢ session_token_key a' u'
unfolding user_envelope_key session_token_key
session_token_key-envelope_key a u a' u' e =
    let h : ◌≡◌ {A = ℕ} 114 116 = ap initial e in ground arith

app_secret_key-request_key : (b a u : Text) → app_secret_key b ≢ user_request_key a u
unfolding app_secret_key user_request_key
app_secret_key-request_key b a u e = let h : ◌≡◌ {A = ℕ} 97 114 = ap initial e in ground arith

app_secret_key-envelope_key : (b a u : Text) → app_secret_key b ≢ user_envelope_key a u
unfolding app_secret_key user_envelope_key
app_secret_key-envelope_key b a u e = let h : ◌≡◌ {A = ℕ} 97 114 = ap initial e in ground arith

app_secret_key-session_token_key : (b a u : Text) → app_secret_key b ≢ session_token_key a u
unfolding app_secret_key session_token_key
app_secret_key-session_token_key b a u e = let h : ◌≡◌ {A = ℕ} 97 116 = ap initial e in ground arith

pub app_secret_key-nonces_key : (b a u : Text) → app_secret_key b ≢ auth_nonces_key a u
unfolding app_secret_key auth_nonces_key
app_secret_key-nonces_key b a u e = let h : ◌≡◌ {A = ℕ} 112 117 = ap second e in ground arith

take-take : {A : Type 0} (n : ℕ) (l : List A) → take n (take n l) ≡ take n l
take-take zero l = refl
take-take (suc n) [] = refl
take-take (suc n) (x ∷ l) = ap (x ∷◌) (take-take n l)

-- What stands under a key for nonces is a list.
pub record IsGood {D : Type 0} (value : D → Text → Option Value) (d : D) : Type 0 where
  pub nonces : (a u : Text) → (l : List Text) × (entries (value d (auth_nonces_key a u)) ≡ some l)

-- The same, and the secrets of the apps are these.
pub record IsKept {D : Type 0} (value : D → Text → Option Value) (secrets : Text → Option Value)
    (d : D) : Type 0 where
  pub good : IsGood value d
  pub apps : (a : Text) → value d (app_secret_key a) ≡ secrets a

module _ {D : Type 0} (r : Redis D) (c : Encodings) {value : D → Text → Option Value}
    (rl : RedisLaws r value) (cl : EncodingLaws c) where
  IsKept-others :
      {secrets : Text → Option Value} (k : Text) (d d' : D)
      → ((b v : Text) → auth_nonces_key b v ≢ k)
      → ((b : Text) → app_secret_key b ≢ k)
      → ((k' : Text) → k' ≢ k → value d' k' ≡ value d k')
      → IsKept value secrets d
      → IsKept value secrets d'
  IsKept-others k d d' apart apart' others kept = record {
    good = record {
      nonces = λ b v.
          let (l, e) = kept.good.nonces b v in
          (l, rw (others (auth_nonces_key b v) (apart b v), e));
    };
    apps = λ b. rw (others (app_secret_key b) (apart' b), kept.apps b);
  }

  pub request_kept_lem :
      {secrets : Text → Option Value} (a u : Text) (x : UserRequest) (d : D)
      → IsKept value secrets d
      → (d' : D) × (store_user_request r c a u x d ≡ (some tt, d'))
        × (load_user_request r c a u d' ≡ (some x, d'))
        × IsKept value secrets d'
  unfolding store_user_request load_user_request text_eq
  request_kept_lem a u x d good =
      let (n, rest, e₁, e₂) = cl.request_kept x in
      let k = user_request_key a u in
      let (d', e₃, e₄, others) = rl.set_value k (n ∷ rest) d in
      (
        d',
        rw (e₁, e₃),
        rw (rl.get_value k (n ∷ rest) d' e₄, e₂),
        IsKept-others k d d' (λ b v. request_key-nonces_key b v a u)
            (λ b. app_secret_key-request_key b a u) others good,
      )

  pub envelope_kept_lem :
      {secrets : Text → Option Value} (a u : Text) (x : UserEnvelope) (d : D)
      → IsKept value secrets d
      → (d' : D) × (store_user_envelope r c a u x d ≡ (some tt, d'))
        × (load_user_envelope r c a u d' ≡ (some x, d'))
        × IsKept value secrets d'
  unfolding store_user_envelope load_user_envelope
  envelope_kept_lem a u x d good =
      let (text, e₁, e₂) = cl.envelope_kept x in
      let k = user_envelope_key a u in
      let (d', e₃, e₄, others) = rl.set_value k text d in
      (
        d',
        rw (e₁, e₃),
        rw (rl.get_value k text d' e₄, e₂),
        IsKept-others k d d' (λ b v. envelope_key-nonces_key b v a u)
            (λ b. app_secret_key-envelope_key b a u) others good,
      )

  -- An envelope that is loaded is loaded from any database with the same value at its key.
  pub load_user_envelope_lem :
      (a u : Text) (x : UserEnvelope) (d d' : D) (o : Option Value)
      → value d (user_envelope_key a u) ≡ o
      → value d' (user_envelope_key a u) ≡ o
      → load_user_envelope r c a u d ≡ (some x, d)
      → load_user_envelope r c a u d' ≡ (some x, d')
  unfolding load_user_envelope
  load_user_envelope_lem a u x d d' (some (string v)) e e' loads =
      let k = user_envelope_key a u in
      let h : c.unmarshal_envelope v ≡ some x =
        ap (λ z. z.0) (rw (rl.get_value k v d e) at loads) in
      rw (rl.get_value k v d' e', h)
  load_user_envelope_lem a u x d d' (some (list l)) e e' loads =
      let h : none ≡ some x =
        ap (λ z. z.0) (rw (rl.get_list (user_envelope_key a u) d l e) at loads) in
      cc
  load_user_envelope_lem a u x d d' none e e' loads =
      let h : none ≡ some x =
        ap (λ z. z.0) (rw (rl.get_none (user_envelope_key a u) d e) at loads) in
      cc

  -- A session token is stored, and no other is; the envelopes stay.
  pub session_token_kept_lem :
      {secrets : Text → Option Value} (a u token : Text) (seconds : ℕ) (x : UserEnvelope) (d : D)
      → IsKept value secrets d
      → load_user_envelope r c a u d ≡ (some x, d)
      → (d' : D) × (store_session_token r c a u token seconds d ≡ (some tt, d'))
        × ((t : Text) → has_session_token r c a u t d' ≡ (some (text_eq token t), d'))
        × (load_user_envelope r c a u d' ≡ (some x, d'))
        × IsKept value secrets d'
  unfolding store_session_token has_session_token
  session_token_kept_lem a u token seconds x d good loads =
      let k = session_token_key a u in
      let e = user_envelope_key a u in
      let (d', stores, holds, others) = rl.set_expiring_value k token seconds d in
      (
        d',
        stores,
        λ t. rw (rl.get_value k token d' holds),
        load_user_envelope_lem a u x d d' (value d e) refl
            (others e (session_token_key-envelope_key a u a u)) loads,
        IsKept-others k d d' (λ b v. session_token_key-nonces_key b v a u)
            (λ b. app_secret_key-session_token_key b a u) others good,
      )

  -- Cut or not, of the list that a nonce is pushed to the same 21 entries are read.
  pub store_auth_nonce_lem :
      (a u : Text) (n : Bytes) (d : D) (l : List Text)
      → entries (value d (auth_nonces_key a u)) ≡ some l
      → (d' : D) × (l' : List Text) × (store_auth_nonce r c a u n d ≡ (some tt, d'))
        × (entries (value d' (auth_nonces_key a u)) ≡ some l')
        × (take 21 l' ≡ c.hex.encode n ∷ take 20 l)
        × ((k : Text) → k ≢ auth_nonces_key a u → value d' k ≡ value d k)
  unfolding store_auth_nonce
  store_auth_nonce_lem a u n d l el =
      let k = auth_nonces_key a u in
      let h = c.hex.encode n in
      let (d₁, e₁, v₁, o₁) = rl.l_push_value k h d l el in
      let (i, d₂, e₂, _, o₂) = rl.intn_value 2 d₁ in
      let v₂ : entries (value d₂ k) ≡ some (h ∷ l) = rw (o₂ k, v₁) in
      let (d₃, e₃, v₃, o₃) = rl.l_trim_value k 20 d₂ (h ∷ l) v₂ in
      elim (Bool-cases (i == 0)) [
        | inl cut ↦ (
          d₃,
          h ∷ take 20 l,
          rw (e₁, e₂, cut, e₃),
          v₃,
          ap (h ∷◌) (take-take 20 l),
          λ k' ne. o₃ k' ne ∙ o₂ k' ∙ o₁ k' ne,
        )
        | inr kept ↦ (d₂, h ∷ l, rw (e₁, e₂, kept), v₂, refl, λ k' ne. o₂ k' ∙ o₁ k' ne)
      ]
