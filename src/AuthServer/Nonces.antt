-- ===== src/AuthServer/Nonces.antt =====
-- The nonces that the storage in Redis has, whatever the random cuts of their list.
use plissken.Base.{
  ℕ, zero, suc, ◌≡◌, refl, Option, sym, ap, ◌∙◌, some, List, [], ◌∷◌, map, Text, Bool, true, false,
  text_eq, if◌then◌else◌,
}
use plissken.Opaque.Go.{Bytes, Go, pure, ◌>>◌, take}
use plissken.AuthServer.Redis.{Value, Redis, RedisLaws, Encodings, EncodingLaws, entries}
use plissken.AuthServer.RedisWrapper.{auth_nonces_key, any_nonce, store_auth_nonce, has_auth_nonce}
use plissken.AuthServer.Kept.{store_auth_nonce_lem}

module _ {ℓ} {A : Type ℓ} where
  take-take-suc : (n : ℕ) (l : List A) → take n (take (suc n) l) ≡ take n l
  take-take-suc zero l = refl
  take-take-suc (suc n) [] = refl
  take-take-suc (suc n) (x ∷ l) = ap (x ∷◌) (take-take-suc n l)

-- Whether a nonce is one of these.
abbrev pub is_one_of : Bytes → List Bytes → Bool
is_one_of nonce [] = false
is_one_of nonce (n ∷ ns) = let rest = is_one_of nonce ns in if text_eq n nonce then true else rest

module _ {D : Type 0} (r : Redis D) (c : Encodings) where
  -- Stores nonces of a user, the last one of the list first.
  abbrev pub store_nonces : (apptoken username : Text) → List Bytes → Go D (Unit {0})
  store_nonces a u [] = pure tt
  store_nonces a u (n ∷ ns) = store_nonces a u ns >> store_auth_nonce r c a u n

  module _ {value : D → Text → Option Value} (rl : RedisLaws r value) (cl : EncodingLaws c) where
    any_nonce-map :
        (nonce : Bytes) (k : ℕ) (ns : List Bytes)
        → any_nonce c.decode_hex nonce (take k (map c.hex.encode ns)) ≡ is_one_of nonce (take k ns)
    unfolding any_nonce
    any_nonce-map nonce zero ns = refl
    any_nonce-map nonce (suc k) [] = refl
    any_nonce-map nonce (suc k) (n ∷ ns) = rw (cl.hex_kept n, any_nonce-map nonce k ns)

    store_nonces_lem :
        (a u : Text) (ns : List Bytes) (d : D)
        → entries (value d (auth_nonces_key a u)) ≡ some []
        → (d' : D) × (l : List Text) × (store_nonces a u ns d ≡ (some tt, d'))
          × (entries (value d' (auth_nonces_key a u)) ≡ some l)
          × (take 21 l ≡ take 21 (map c.hex.encode ns))
    store_nonces_lem a u [] d e = (d, [], refl, e, refl)
    store_nonces_lem a u (n ∷ ns) d e =
        let (d₁, l₁, e₁, v₁, w₁) = store_nonces_lem a u ns d e in
        let (d₂, l₂, e₂, v₂, w₂, _) = store_auth_nonce_lem r c rl cl a u n d₁ l₁ v₁ in
        (
          d₂,
          l₂,
          rw (e₁, e₂),
          v₂,
          w₂
              ∙ ap (c.hex.encode n ∷◌) (
                  sym (take-take-suc 20 l₁)
                  ∙ ap (take 20) w₁
                  ∙ take-take-suc 20 (map c.hex.encode ns)),
        )

    -- A user without nonces to whom any nonces are stored, one after the other, has exactly the last
    -- 21 of them, however often their list was cut.
    pub has_auth_nonce-store_nonces :
        (a u : Text) (ns : List Bytes) (d : D)
        → entries (value d (auth_nonces_key a u)) ≡ some []
        → (d' : D) × (store_nonces a u ns d ≡ (some tt, d'))
          × ((nonce : Bytes)
              → has_auth_nonce r c a u nonce d' ≡ (some (is_one_of nonce (take 21 ns)), d'))
    unfolding has_auth_nonce
    has_auth_nonce-store_nonces a u ns d e =
        let (d', l, e₁, v, w) = store_nonces_lem a u ns d e in
        (
          d',
          e₁,
          λ nonce.
              rw (rl.l_range_value (auth_nonces_key a u) 20 d' l v, w, any_nonce-map nonce 21 ns),
        )
