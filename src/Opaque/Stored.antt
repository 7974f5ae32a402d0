-- ===== src/Opaque/Stored.antt =====
-- What the protocol relies on of a storage.
use plissken.Base.{◌≡◌, some, true, Text}
use plissken.Opaque.Go.{Bytes}
use plissken.Opaque.Server.{UserRequest, UserEnvelope, Storage}

-- In the states that are good, which the operations keep: what is stored is loaded, and a nonce
-- that is stored is there and leaves an envelope as it is.
pub record Keeps {S : Type 0} (st : Storage S) (IsGood : S → Type 0) : Type 0 where
  pub request_kept :
      (a u : Text) (x : UserRequest) (s : S)
      → IsGood s
      → (s' : S) × (st.store_user_request a u x s ≡ (some tt, s'))
        × (st.load_user_request a u s' ≡ (some x, s'))
        × IsGood s'
  pub envelope_kept :
      (a u : Text) (x : UserEnvelope) (s : S)
      → IsGood s
      → (s' : S) × (st.store_user_envelope a u x s ≡ (some tt, s'))
        × (st.load_user_envelope a u s' ≡ (some x, s'))
        × IsGood s'
  pub nonce_kept :
      (a u : Text) (n : Bytes) (x : UserEnvelope) (s : S)
      → IsGood s
      → st.load_user_envelope a u s ≡ (some x, s)
      → (s' : S) × (st.store_auth_nonce a u n s ≡ (some tt, s'))
        × (st.has_auth_nonce a u n s' ≡ (some true, s'))
        × (st.load_user_envelope a u s' ≡ (some x, s'))
        × IsGood s'
