-- ===== src/Opaque/Primitives.antt =====
-- What protocol-lib calls: circl's OPRF and X25519, Go's AES-GCM, golang.org/x/crypto's HKDF and
-- Argon2, and the source of randomness, whose state is `R`.
use plissken.Base.{ℕ, ◌<◌, ◌≡◌, Option, some, List, [], ◌∷◌}
use plissken.Opaque.Go.{Bytes, length}

pub record Primitives (R : Type 0) : Type 1 where
  -- Group elements, blinds, a server's key, and what a client keeps to finalize.
  pub Element : Type 0
  pub Scalar : Type 0
  pub PrivateKey : Type 0
  pub FinalizeData : Type 0
  -- `G.HashToElement(message, dst)` and `MarshalBinary`.
  pub hash_to_element : Bytes → Bytes → Element
  pub marshal_element : Element → Option Bytes
  -- `NewClient(suite).Blind(inputs)`, and the blinds that it has chosen.
  pub blind : List Bytes → R → Option (FinalizeData × List Element) × R
  pub copy_blinds : FinalizeData → List Scalar
  -- `DeterministicBlind(inputs, blinds)`, with the blinds given.
  pub deterministic_blind : List Bytes → List Scalar → Option (FinalizeData × List Element)
  -- `MarshalBinary` and `UnmarshalBinary` of a scalar, `MarshalBinaryCompress` and `UnmarshalBinary`
  -- of an element.
  pub marshal_scalar : Scalar → Option Bytes
  pub unmarshal_scalar : Bytes → Option Scalar
  pub compress_element : Element → Option Bytes
  pub unmarshal_element : Bytes → Option Element
  -- `NewClient(suite).Finalize(finData, eval)`.
  pub finalize : FinalizeData → List Element → Option (List Bytes)
  -- `GenerateKey`, `MarshalBinary` and `UnmarshalBinary` of a key, `NewServer(suite, key).Evaluate`.
  pub generate_key : R → Option PrivateKey × R
  pub marshal_key : PrivateKey → Option Bytes
  pub unmarshal_key : Bytes → Option PrivateKey
  pub evaluate : PrivateKey → List Element → Option (List Element)
  -- `n` random bytes.
  pub random : ℕ → R → Option Bytes × R
  -- `argon2.IDKey(x, salt, 1, 128, 4, 32)`.
  pub id_key : Bytes → Bytes → Bytes
  -- `n` bytes of `hkdf.New(sha256.New, secret, salt, nil)`.
  pub hkdf : (secret salt : Bytes) → ℕ → Option Bytes
  -- AES-GCM with this key: `Seal(nil, nonce, plaintext, nil)` and `Open`.
  pub seal : (key nonce plaintext : Bytes) → Option Bytes
  pub open_sealed : (key nonce ciphertext : Bytes) → Option Bytes
  -- `x25519.KeyGen` and `x25519.Shared(secret, public)`, which fails for a point of low order.
  pub key_gen : Bytes → Bytes
  pub shared : (secret public : Bytes) → Option Bytes

-- Their documented behaviour, as far as the protocol relies on it.
pub record Laws {R : Type 0} (p : Primitives R) : Type 1 where
  pub marshal_element_some : (e : p.Element) → (b : Bytes) × (p.marshal_element e ≡ some b)
  -- The OPRF: a pseudorandom function of the server's key and the input, whatever the blinds.
  pub prf : p.PrivateKey → Bytes → Bytes
  pub blind_some :
      (input : Bytes) (r : R)
      → (d : p.FinalizeData) × (req : List p.Element) × (r' : R) × (p.blind (input ∷ []) r
          ≡ (some (d, req), r'))
        × (p.deterministic_blind (input ∷ []) (p.copy_blinds d) ≡ some (d, req))
        × ((k : p.PrivateKey)
            → (eval : List p.Element) × (p.evaluate k req ≡ some eval)
              × (p.finalize d eval ≡ some (prf k input ∷ [])))
  pub scalar_kept :
      (x : p.Scalar) → (b : Bytes) × (p.marshal_scalar x ≡ some b) × (p.unmarshal_scalar b ≡ some x)
  pub element_kept :
      (e : p.Element)
      → (b : Bytes) × (p.compress_element e ≡ some b) × (p.unmarshal_element b ≡ some e)
  pub generate_key_some :
      (r : R) → (k : p.PrivateKey) × (r' : R) × (p.generate_key r ≡ (some k, r'))
  pub marshal_key_some :
      (k : p.PrivateKey) → (b : Bytes) × (p.marshal_key k ≡ some b) × (p.unmarshal_key b ≡ some k)
  pub random_some :
      (n : ℕ) (r : R) → (b : Bytes) × (r' : R) × (p.random n r ≡ (some b, r')) × (length b ≡ n)
  pub id_key_length : (x salt : Bytes) → length (p.id_key x salt) ≡ 32
  pub hkdf_some :
      (secret salt : Bytes) (n : ℕ)
      → n < 8161
      → (b : Bytes) × (p.hkdf secret salt n ≡ some b) × (length b ≡ n)
  pub open_seal :
      (key nonce plaintext : Bytes)
      → length key ≡ 16
      → length nonce ≡ 12
      → (c : Bytes) × (p.seal key nonce plaintext ≡ some c)
        × (p.open_sealed key nonce c ≡ some plaintext)
  pub key_gen_length : (secret : Bytes) → length secret ≡ 32 → length (p.key_gen secret) ≡ 32
  -- Diffie and Hellman.
  pub shared_comm :
      (a b : Bytes)
      → length a ≡ 32
      → length b ≡ 32
      → (s : Bytes) × (p.shared a (p.key_gen b) ≡ some s) × (p.shared b (p.key_gen a) ≡ some s)
