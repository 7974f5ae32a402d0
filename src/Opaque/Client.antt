-- ===== src/Opaque/Client.antt =====
-- protocol-lib/client/client.go.
use plissken.Base.{Option, none, some, List, [], ◌∷◌, ◌++◌, codes, ltb}
use plissken.Opaque.Go.{Bytes, Go, pure, lift, provided, first, ◌>>=◌, length, take, drop, to_key}
use plissken.Opaque.Primitives.{Primitives}

-- The results of `MakeEnvU`.
pub record Envelope : Type 0 where
  pub envu : Bytes
  pub envu_nonce : Bytes
  pub pubu : Bytes
  pub salt : Bytes

module _ {R : Type 0} (p : Primitives R) where
  -- The results of `MakeOprfRequest`.
  pub record OprfRequest : Type 0 where
    pub inputs : List Bytes
    pub fin_data : p.FinalizeData
    pub eval_req : List p.Element

  unfoldable pub make_oprf_request : Bytes → Go R OprfRequest
  make_oprf_request password = do
    b ← lift (
        p.marshal_element
          (p.hash_to_element password (codes "QUUX-V01-CS02-with-P256_XMD:SHA-256_SSWU_RO_")))
    blinded ← p.blind (b ∷ [])
    pure (record { inputs = b ∷ []; fin_data = blinded.0; eval_req = blinded.1 })

  -- `finalizeRequest`.
  unfoldable pub finalize_request : p.FinalizeData → List p.Element → Go R (List Bytes)
  finalize_request fin_data eval = lift (p.finalize fin_data eval)

  -- The salt of `hardenOprfResult`: the given one, or 32 random bytes.
  unfoldable pub salt_for : Option Bytes → Go R Bytes
  salt_for none = p.random 32
  salt_for (some salt) = pure salt

  unfoldable pub harden_oprf_result : Bytes → Option Bytes → Go R (Bytes × Bytes)
  harden_oprf_result x precomputed_salt = do
    salt ← salt_for precomputed_salt
    let key = p.id_key x salt
    provided (ltb 0 (length key)) (pure (key, salt))

  unfoldable pub make_env_u : p.FinalizeData → List p.Element → Bytes → Go R Envelope
  make_env_u fin_data eval pub_s = do
    oprf_ret ← finalize_request fin_data eval
    x ← first oprf_ret
    hardened ← harden_oprf_result x none
    priv_u ← p.random 32
    let pub_u = p.key_gen priv_u
    let encoded_env_u = priv_u ++ pub_s
    aes_key ← lift (p.hkdf hardened.0 [] 16)
    nonce ← p.random 12
    envu ← lift (p.seal aes_key nonce encoded_env_u)
    pure (record { envu = envu; envu_nonce = nonce; pubu = pub_u; salt = hardened.1 })

  -- `decryptEnvU`: the user's private key and the server's public key. A plaintext of less than 32
  -- bytes is a panic.
  unfoldable pub decrypt_env_u : (envu envu_nonce rwd_u : Bytes) → Go R (Bytes × Bytes)
  decrypt_env_u envu envu_nonce rwd_u = do
    aes_key ← lift (p.hkdf rwd_u [] 16)
    encoded_env_u ← lift (p.open_sealed aes_key envu_nonce envu)
    provided (ltb 31 (length encoded_env_u))
        (pure (to_key (take 32 encoded_env_u), to_key (drop 32 encoded_env_u)))

  unfoldable pub derive_session_token :
      p.FinalizeData → List p.Element → (envu envu_nonce rwd_u_salt auth_nonce : Bytes) → Go R Bytes
  derive_session_token fin_data eval envu envu_nonce rwd_u_salt auth_nonce = do
    oprf_ret ← finalize_request fin_data eval
    x ← first oprf_ret
    hardened ← harden_oprf_result x (some rwd_u_salt)
    keys ← decrypt_env_u envu envu_nonce hardened.0
    shared_key ← lift (p.shared keys.0 keys.1)
    b ← lift (p.hkdf shared_key auth_nonce 32)
    pure (auth_nonce ++ b)
