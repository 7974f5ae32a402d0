-- ===== src/AuthServer/Agreement.antt =====
-- The protocol over the storage in Redis.
use plissken.Base.{
  ◌≡◌, ◌≢◌, refl, sym, subst, ◌∙◌, Option, some, List, Text, Bool-cases, inl, inr, true, false,
  text_eq, text_eq_iff, text_eq_refl,
}
use plissken.Opaque.Go.{Bytes}
use plissken.Opaque.Primitives.{Primitives, Laws}
use plissken.Opaque.Server.{UserEnvelope, World, Server, new_server}
use plissken.Opaque.Stored.{Keeps}
use plissken.Opaque.Session.{register, log_in}
use plissken.Opaque.Agreement.{log_in-register}
use plissken.AuthServer.Redis.{Value, Redis, RedisLaws, Encodings, EncodingLaws, entries}
use plissken.AuthServer.RedisWrapper.{
  auth_nonces_key, user_envelope_key, app_secret_key, any_nonce, store_auth_nonce, has_auth_nonce,
  load_user_envelope, redis_storage,
}
use plissken.AuthServer.Kept.{
  IsGood, IsKept, app_secret_key-nonces_key, request_kept_lem, envelope_kept_lem,
  envelope_key-nonces_key, load_user_envelope_lem, store_auth_nonce_lem,
}

module _ {D : Type 0} (r : Redis D) (c : Encodings) {value : D → Text → Option Value}
    (rl : RedisLaws r value) (cl : EncodingLaws c) where
  IsKept-nonce :
      {secrets : Text → Option Value} (a u : Text) (d d' : D) (l : List Text)
      → entries (value d' (auth_nonces_key a u)) ≡ some l
      → ((k : Text) → k ≢ auth_nonces_key a u → value d' k ≡ value d k)
      → IsKept value secrets d
      → IsKept value secrets d'
  IsKept-nonce a u d d' l e others kept = record {
    good = record {
      nonces = λ b v.
          let k = auth_nonces_key a u in
          let k' = auth_nonces_key b v in
          elim (Bool-cases (text_eq k' k)) [
            | inl same ↦ (
              l,
              subst (λ k'. entries (value d' k') ≡ some l) (sym ((text_eq_iff k' k).0 same)) e,
            )
            | inr differs ↦
                let (l', e') = kept.good.nonces b v in
                let ne : k' ≢ k =
                  λ p. let h : true ≡ false = sym ((text_eq_iff k' k).1 p) ∙ differs in cc in
                (l', rw (others k' ne, e'))
          ];
    };
    apps = λ b. rw (others (app_secret_key b) (app_secret_key-nonces_key b a u), kept.apps b);
  }

  nonce_kept_lem :
      {secrets : Text → Option Value} (a u : Text) (n : Bytes) (x : UserEnvelope) (d : D)
      → IsKept value secrets d
      → load_user_envelope r c a u d ≡ (some x, d)
      → (d' : D) × (store_auth_nonce r c a u n d ≡ (some tt, d'))
        × (has_auth_nonce r c a u n d' ≡ (some true, d'))
        × (load_user_envelope r c a u d' ≡ (some x, d'))
        × IsKept value secrets d'
  unfolding has_auth_nonce any_nonce
  nonce_kept_lem a u n x d good loads =
      let (l, e) = good.good.nonces a u in
      let (d', l', e₁, v, w, others) = store_auth_nonce_lem r c rl cl a u n d l e in
      let k = user_envelope_key a u in
      (
        d',
        e₁,
        rw (rl.l_range_value (auth_nonces_key a u) 20 d' l' v, w, cl.hex_kept n, text_eq_refl n),
        load_user_envelope_lem r c rl cl a u x d d' (value d k) refl
            (others k (λ p. envelope_key-nonces_key a u a u (sym p))) loads,
        IsKept-nonce a u d d' l' v others good,
      )

  pub redis_storage-Keeps :
      {secrets : Text → Option Value} → Keeps (redis_storage r c) (IsKept value secrets)
  redis_storage-Keeps = record {
    request_kept = request_kept_lem r c rl cl;
    envelope_kept = envelope_kept_lem r c rl cl;
    nonce_kept = nonce_kept_lem;
  }

  -- Over Redis, where only lists stand under the keys for nonces, a new server registers a user, and
  -- then the same password logs the user in, twice in a row. The libraries satisfy `Laws`, Redis its
  -- laws and the encodings theirs; none of the steps fails.
  pub redis_storage-log_in :
      {R : Type 0} (p : Primitives R)
      → Laws p
      → (input : Option Bytes) (apptoken username : Text) (password : Bytes) (random : R) (d : D)
      → IsGood value d
      → (s : Server) × (r' : R) × (w₁ w₂ w₃ : World R D) × (new_server p input random
          ≡ (some s, r'))
        × (register p
              (redis_storage r c)
              s
              apptoken
              username
              password
              (record { random = r'; store = d })
            ≡ (some tt, w₁))
        × (log_in p (redis_storage r c) s apptoken username password w₁ ≡ (some true, w₂))
        × (log_in p (redis_storage r c) s apptoken username password w₂ ≡ (some true, w₃))
  redis_storage-log_in p laws input a u password random d good =
      log_in-register p laws (redis_storage r c) (IsKept value (λ a. value d (app_secret_key a)))
        redis_storage-Keeps input a u password random d (record { good = good; apps = λ a. refl })
