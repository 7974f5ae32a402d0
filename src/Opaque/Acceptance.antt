-- ===== src/Opaque/Acceptance.antt =====
-- What a server has found when it accepts a token.
use plissken.Base.{
  ◌≡◌, ◌≢◌, ◌↔◌, sym, ap, ◌∙◌, some, Text, text_eq, text_eq_iff, text_eq_refl, ==_iff, Bool, true,
  false, ◌==◌,
}
use plissken.Opaque.Go.{Bytes, Go, lift, provided, pure, ◌>>=◌, length, take, drop, to_key}
use plissken.Opaque.Slices.{length-drop, to_key-full}
use plissken.Opaque.Primitives.{Primitives}
use plissken.Opaque.Server.{UserEnvelope, Storage, World, Server, of_store, is_authenticated}
use plissken.Opaque.Returns.{provided-Returns, continue-Returns}

module _ {R S : Type 0} (p : Primitives R) (st : Storage S) (s : Server)
    (apptoken username : Text) where
  -- The token is 12 bytes that the storage has as a nonce of this user, and then 32 bytes derived
  -- of the nonce and the key that the server shares with the user's stored key.
  pub record IsAccepted (token : Bytes) (store : S) : Type 0 where
    pub envelope : UserEnvelope
    pub shared_key : Bytes
    pub token_length : length token ≡ 44
    pub issued : (st.has_auth_nonce apptoken username (take 12 token) store).0 ≡ some true
    pub loads :
        (st.load_user_envelope apptoken username
          (st.has_auth_nonce apptoken username (take 12 token) store).1).0
        ≡ some envelope
    pub shares : p.shared s.priv_s (to_key envelope.user_pub_key) ≡ some shared_key
    pub derives : p.hkdf shared_key (take 12 token) 32 ≡ some (drop 12 token)

  -- The parts of `is_authenticated`, the last one first.
  module _ (token : Bytes) where
    abbrev check_tag : Bytes → Go (World R S) Bool
    check_tag derived = provided (text_eq (to_key (drop 12 token)) derived) (pure true)

    abbrev check_key : Bytes → Go (World R S) Bool
    check_key shared_key = lift (p.hkdf shared_key (take 12 token) 32) >>= check_tag

    abbrev check_envelope : UserEnvelope → Go (World R S) Bool
    check_envelope x = lift (p.shared s.priv_s (to_key x.user_pub_key)) >>= check_key

    abbrev load_and_check : Go (World R S) Bool
    load_and_check = of_store (st.load_user_envelope apptoken username) >>= check_envelope

  tag_lem :
      (token derived : Bytes)
      → length token ≡ 44
      → text_eq (to_key (drop 12 token)) derived ≡ true
      → derived ≡ drop 12 token
  tag_lem token derived len same =
      sym ((text_eq_iff (to_key (drop 12 token)) derived).0 same)
      ∙ to_key-full (drop 12 token) (length-drop 12 token 32 len)

  returned-IsAccepted :
      (token : Bytes) (w : World R S) (b : Bool) (w' : World R S)
      → is_authenticated p st s apptoken username token w ≡ (some b, w')
      → (b ≡ true) × IsAccepted token w.store
  unfolding is_authenticated
  returned-IsAccepted token w b w' e =
      let t = token in
      let has = st.has_auth_nonce apptoken username (take 12 t) w.store in
      let load = st.load_user_envelope apptoken username has.1 in
      let w₁ = record w { store = has.1 } in
      let w₂ = record w { store = load.1 } in
      let (l, e₁) =
        provided-Returns (length t == 44)
          (of_store (st.has_auth_nonce apptoken username (take 12 t)) >>= λ found.
            provided found (load_and_check t))
          w b w' e in
      let (found, f₁, e₂) =
        continue-Returns has.0 (λ found. provided found (load_and_check t)) w₁ b w' e₁ in
      let (is_found, e₃) = provided-Returns found (load_and_check t) w₁ b w' e₂ in
      let (x, f₂, e₄) = continue-Returns load.0 (check_envelope t) w₂ b w' e₃ in
      let (sk, f₃, e₅) =
        continue-Returns (p.shared s.priv_s (to_key x.user_pub_key)) (check_key t) w₂ b w' e₄ in
      let (derived, f₄, e₆) =
        continue-Returns (p.hkdf sk (take 12 t) 32) (check_tag t) w₂ b w' e₅ in
      let (same, e₇) =
        provided-Returns (text_eq (to_key (drop 12 t)) derived) (pure true) w₂ b w' e₆ in
      let len : length t ≡ 44 = (==_iff (length t) 44).0 l in
      let is_true : some true ≡ some b = ap (λ z. z.0) e₇ in
      (
        cc,
        record {
          envelope = x;
          shared_key = sk;
          token_length = len;
          issued = f₁ ∙ ap some is_found;
          loads = f₂;
          shares = f₃;
          derives = f₄ ∙ ap some (tag_lem t derived len same);
        },
      )

  IsAccepted-is_authenticated :
      (token : Bytes) (w : World R S)
      → IsAccepted token w.store
      → (is_authenticated p st s apptoken username token w).0 ≡ some true
  unfolding is_authenticated
  IsAccepted-is_authenticated token w a =
      let tag = drop 12 token in
      rw (
        a.token_length,
        a.issued,
        a.loads,
        a.shares,
        a.derives,
        to_key-full tag (length-drop 12 token 32 a.token_length),
        text_eq_refl tag,
      )

  -- The server accepts a token exactly if it has 44 bytes, the first 12 of them are stored as a
  -- nonce of this user, and the others are derived of this nonce and of the key that the server
  -- shares with the user's stored key; any other token ends with an error, and no token with false.
  pub is_authenticated-IsAccepted :
      (token : Bytes) (w : World R S)
      → ((is_authenticated p st s apptoken username token w).0 ≡ some true
          ↔ IsAccepted token w.store)
        × ((is_authenticated p st s apptoken username token w).0 ≢ some false)
  is_authenticated-IsAccepted token w =
      let r = is_authenticated p st s apptoken username token w in
      let sound =
        λ (b : Bool) (e : r.0 ≡ some b). returned-IsAccepted token w b r.1 (ap (λ x. (x, r.1)) e) in
      (
        (λ e. (sound true e).1, IsAccepted-is_authenticated token w),
        λ e. let h : false ≡ true = (sound false e).0 in cc,
      )
