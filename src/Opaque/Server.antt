-- ===== src/Opaque/Server.antt =====
-- protocol-lib/server/server.go and storage.go.
use plissken.Base.{ℕ, Option, none, some, List, Text, Bool, true, text_eq, ◌==◌}
use plissken.Opaque.Go.{Bytes, Go, pure, lift, provided, ◌>>=◌, ◌>>◌, length, take, drop, to_key}
use plissken.Opaque.Primitives.{Primitives}

pub record UserRequest : Type 0 where
  pub client_oprf_priv_key : Bytes

pub record UserEnvelope : Type 0 where
  pub user_pub_key : Bytes
  pub envu : Bytes
  pub envu_nonce : Bytes
  pub user_key_salt : Bytes
  pub oprf_priv_key : Bytes

-- The interface of storage.go: each operation takes an app token and a user name.
pub record Storage (S : Type 0) : Type 0 where
  pub store_user_request : Text → Text → UserRequest → Go S (Unit {0})
  pub load_user_request : Text → Text → Go S UserRequest
  pub has_user_request : Text → Text → Go S Bool
  pub store_user_envelope : Text → Text → UserEnvelope → Go S (Unit {0})
  pub load_user_envelope : Text → Text → Go S UserEnvelope
  pub store_auth_nonce : Text → Text → Bytes → Go S (Unit {0})
  pub has_auth_nonce : Text → Text → Bytes → Go S Bool

pub record World (R S : Type 0) : Type 0 where
  pub random : R
  pub store : S

pub record Server : Type 0 where
  pub priv_s : Bytes
  pub pub_s : Bytes

-- What `HandleNewUserAuthentication` returns.
pub record AuthResponse (E : Type 0) : Type 0 where
  pub eval : List E
  pub envu : Bytes
  pub nonce : Bytes
  pub rwd_u_salt : Bytes
  pub auth_nonce : Bytes

abbrev pub default_auth_nonce_length : ℕ
default_auth_nonce_length = 12

abbrev pub default_session_token_length : ℕ
default_session_token_length = 44

module _ {R S : Type 0} where
  abbrev pub of_random : {A : Type 0} → Go R A → Go (World R S) A
  of_random m w = let (a, r) = m w.random in (a, record w { random = r })

  abbrev pub of_store : {A : Type 0} → Go S A → Go (World R S) A
  of_store m w = let (a, s) = m w.store in (a, record w { store = s })

-- `NewServer`, without the log line.
unfoldable pub new_server : {R : Type 0} → Primitives R → Option Bytes → Go R Server
new_server p none = do
  priv_key ← p.random 32
  pure (record { priv_s = priv_key; pub_s = p.key_gen priv_key })
new_server p (some input) =
    pure (record { priv_s = to_key input; pub_s = p.key_gen (to_key input) })

module _ {R S : Type 0} (p : Primitives R) (st : Storage S) (s : Server) where
  unfoldable pub handle_new_user_request :
      (apptoken username : Text) → List p.Element → Go (World R S) (List p.Element)
  handle_new_user_request apptoken username eval_req = do
    k_u ← of_random p.generate_key
    serialized ← lift (p.marshal_key k_u)
    ret ← lift (p.evaluate k_u eval_req)
    of_store
        (st.store_user_request apptoken username (record { client_oprf_priv_key = serialized }))
    pure ret

  unfoldable pub store_user_data :
      (apptoken username : Text) → (pub_u envu nonce rwd_u_salt : Bytes) → Go (World R S) (Unit {0})
  store_user_data apptoken username pub_u envu nonce rwd_u_salt = do
    user_req ← of_store (st.load_user_request apptoken username)
    of_store (
        st.store_user_envelope apptoken username (record {
          user_pub_key = pub_u;
          envu = envu;
          envu_nonce = nonce;
          user_key_salt = rwd_u_salt;
          oprf_priv_key = user_req.client_oprf_priv_key;
        }))

  unfoldable pub handle_new_user_authentication :
      (apptoken username : Text) → List p.Element → Go (World R S) (AuthResponse p.Element)
  handle_new_user_authentication apptoken username eval_req = do
    saved ← of_store (st.load_user_envelope apptoken username)
    k_u ← lift (p.unmarshal_key saved.oprf_priv_key)
    eval ← lift (p.evaluate k_u eval_req)
    auth_nonce ← of_random (p.random default_auth_nonce_length)
    of_store (st.store_auth_nonce apptoken username auth_nonce)
    pure (record {
      eval = eval;
      envu = saved.envu;
      nonce = saved.envu_nonce;
      rwd_u_salt = saved.user_key_salt;
      auth_nonce = auth_nonce;
    })

  unfoldable pub is_registered : (apptoken username : Text) → Go (World R S) Bool
  is_registered apptoken username = of_store (st.has_user_request apptoken username)

  unfoldable pub is_authenticated :
      (apptoken username : Text) → (input_session_token : Bytes) → Go (World R S) Bool
  is_authenticated apptoken username input =
      provided (length input == default_session_token_length) do
        let auth_nonce = take default_auth_nonce_length input
        found ← of_store (st.has_auth_nonce apptoken username auth_nonce)
        provided found do
          saved ← of_store (st.load_user_envelope apptoken username)
          let actual = to_key (drop default_auth_nonce_length input)
          shared_key ← lift (p.shared s.priv_s (to_key saved.user_pub_key))
          derived ← lift (p.hkdf shared_key auth_nonce 32)
          provided (text_eq actual derived) (pure true)
