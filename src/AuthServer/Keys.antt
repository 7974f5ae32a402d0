-- ===== src/AuthServer/Keys.antt =====
-- Which users share a key of the storage in Redis.
use mathlib.Core.List.{
  head-eq_of_cons-eq, tail-eq_of_cons-eq, append_cancel_left, append_cancel_right,
}
use plissken.Base.{◌≡◌, ◌≢◌, ◌↔◌, refl, sym, ap, ◌∙◌, [], ◌∷◌, ◌++◌, append_assoc, Text, codes}
use plissken.AuthServer.RedisWrapper.{
  user_envelope_key, user_request_key, auth_nonces_key, session_token_key,
}

abbrev pub HasNoColon : Text → Type 0
HasNoColon [] = Unit {0}
HasNoColon (x ∷ t) = (x ≢ 58) × HasNoColon t

colon_lem :
    (a b x y : Text)
    → HasNoColon a
    → HasNoColon b
    → a ++ (58 ∷ x) ≡ b ++ (58 ∷ y)
    → (a ≡ b) × (x ≡ y)
colon_lem [] [] x y p q e = (refl, tail-eq_of_cons-eq e)
colon_lem [] (c ∷ b) x y p q e = absurd (q.0 (sym (head-eq_of_cons-eq e)))
colon_lem (c ∷ a) [] x y p q e = absurd (p.0 (head-eq_of_cons-eq e))
colon_lem (c ∷ a) (d ∷ b) x y p q e =
    let (h, t) = colon_lem a b x y p.1 q.1 (tail-eq_of_cons-eq e) in
    (λ i. head-eq_of_cons-eq e i ∷ h i, t)

-- The keys of one kind, with what stands in front and behind.
abbrev key : (front behind apptoken username : Text) → Text
key front behind a u = front ++ a ++ codes ":" ++ u ++ behind

key_assoc : (f g a u : Text) → key f g a u ≡ (f ++ (a ++ (58 ∷ u))) ++ g
key_assoc f g a u = ap (◌++ g) (append_assoc (f ++ a) (codes ":") u ∙ append_assoc f a (58 ∷ u))

key-injective :
    (f g a b u v : Text)
    → HasNoColon a
    → HasNoColon b
    → (key f g a u ≡ key f g b v) ↔ ((a ≡ b) × (u ≡ v))
key-injective f g a b u v p q = (
  λ e. colon_lem a b u v p q (
      append_cancel_left f (a ++ (58 ∷ u)) (b ++ (58 ∷ v)) (
        append_cancel_right (f ++ (a ++ (58 ∷ u))) (f ++ (b ++ (58 ∷ v))) g
          (sym (key_assoc f g a u) ∙ e ∙ key_assoc f g b v))),
  λ e. λ i. key f g (e.0 i) (e.1 i),
)

-- Users of apps whose tokens have no colon share an envelope, a request, nonces or a session token
-- in Redis only if the app and the user name are the same.
pub keys-injective :
    (a b u v : Text)
    → HasNoColon a
    → HasNoColon b
    → ((user_envelope_key a u ≡ user_envelope_key b v) ↔ ((a ≡ b) × (u ≡ v)))
      × ((user_request_key a u ≡ user_request_key b v) ↔ ((a ≡ b) × (u ≡ v)))
      × ((auth_nonces_key a u ≡ auth_nonces_key b v) ↔ ((a ≡ b) × (u ≡ v)))
      × ((session_token_key a u ≡ session_token_key b v) ↔ ((a ≡ b) × (u ≡ v)))
unfolding user_envelope_key user_request_key auth_nonces_key session_token_key
keys-injective a b u v p q = (
  key-injective (codes "reg:") (codes ":envelope") a b u v p q,
  key-injective (codes "reg:") (codes ":request") a b u v p q,
  key-injective (codes "auth:") (codes ":requests") a b u v p q,
  key-injective (codes "tokens:") (codes ":token") a b u v p q,
)

key-shared : (f g a b u : Text) → key f g (a ++ (58 ∷ b)) u ≡ key f g a (b ++ (58 ∷ u))
key-shared f g a b u =
    key_assoc f g (a ++ (58 ∷ b)) u
    ∙ ap (λ t. (f ++ t) ++ g) (append_assoc a (58 ∷ b) (58 ∷ u))
    ∙ sym (key_assoc f g a (b ++ (58 ∷ u)))

-- A user of an app whose token has a colon has the envelope, the request, the nonces and the session
-- token of a user of another app, whose name has this colon.
pub keys-shared :
    (a b u : Text)
    → (user_envelope_key (a ++ (58 ∷ b)) u ≡ user_envelope_key a (b ++ (58 ∷ u)))
      × (user_request_key (a ++ (58 ∷ b)) u ≡ user_request_key a (b ++ (58 ∷ u)))
      × (auth_nonces_key (a ++ (58 ∷ b)) u ≡ auth_nonces_key a (b ++ (58 ∷ u)))
      × (session_token_key (a ++ (58 ∷ b)) u ≡ session_token_key a (b ++ (58 ∷ u)))
unfolding user_envelope_key user_request_key auth_nonces_key session_token_key
keys-shared a b u = (
  key-shared (codes "reg:") (codes ":envelope") a b u,
  key-shared (codes "reg:") (codes ":request") a b u,
  key-shared (codes "auth:") (codes ":requests") a b u,
  key-shared (codes "tokens:") (codes ":token") a b u,
)
