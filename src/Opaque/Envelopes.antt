-- ===== src/Opaque/Envelopes.antt =====
-- The envelope, from the registration that makes it to the login that opens it.
use plissken.Base.{◌≡◌, refl, some, [], ◌∷◌, ◌++◌, List, codes, true, arith, ltb}
use plissken.Opaque.Go.{Bytes, length}
use plissken.Opaque.Slices.{take-append, drop-append, to_key-full, holds_two_keys}
use plissken.Opaque.Primitives.{Primitives, Laws}
use plissken.Opaque.Client.{
  Envelope, OprfRequest, make_oprf_request, finalize_request, salt_for, harden_oprf_result,
  make_env_u, decrypt_env_u, derive_session_token,
}

module _ {R : Type 0} (p : Primitives R) (laws : Laws p) where
  -- The serialised hash of a password.
  abbrev pub digest : Bytes → Bytes
  digest password =
      (laws.marshal_element_some
        (p.hash_to_element password (codes "QUUX-V01-CS02-with-P256_XMD:SHA-256_SSWU_RO_"))).0

  pub make_oprf_request_lem :
      (password : Bytes) (r : R)
      → (req : OprfRequest p) × (r' : R) × (make_oprf_request p password r ≡ (some req, r'))
        × (p.deterministic_blind req.inputs (p.copy_blinds req.fin_data)
            ≡ some (req.fin_data, req.eval_req))
        × ((k : p.PrivateKey)
            → (eval : List p.Element) × (p.evaluate k req.eval_req ≡ some eval)
              × (p.finalize req.fin_data eval ≡ some (laws.prf k (digest password) ∷ [])))
  unfolding make_oprf_request
  make_oprf_request_lem password r =
      let (b, eb) =
        laws.marshal_element_some
          (p.hash_to_element password (codes "QUUX-V01-CS02-with-P256_XMD:SHA-256_SSWU_RO_")) in
      let (d, req, r', e, again, serves) = laws.blind_some b r in
      (record { inputs = b ∷ []; fin_data = d; eval_req = req }, r', rw (eb, e), again, serves)

  -- The envelope opens with the key that is derived of `x`, and holds the user's private key.
  pub record IsSealed (x pub_s : Bytes) (env : Envelope) : Type 0 where
    pub priv_u : Bytes
    pub aes_key : Bytes
    pub derives : p.hkdf (p.id_key x env.salt) [] 16 ≡ some aes_key
    pub opens : p.open_sealed aes_key env.envu_nonce env.envu ≡ some (priv_u ++ pub_s)
    pub public : env.pubu ≡ p.key_gen priv_u
    pub priv_u_length : length priv_u ≡ 32

  key_length : (x salt : Bytes) → ltb 0 (length (p.id_key x salt)) ≡ true
  key_length x salt = rw (laws.id_key_length x salt)

  pub make_env_u-IsSealed :
      (d : p.FinalizeData) (eval : List p.Element) (x pub_s : Bytes) (r : R)
      → p.finalize d eval ≡ some (x ∷ [])
      → (env : Envelope) × (r' : R) × (make_env_u p d eval pub_s r ≡ (some env, r'))
        × IsSealed x pub_s env
  unfolding make_env_u finalize_request harden_oprf_result salt_for
  make_env_u-IsSealed d eval x pub_s r e =
      let (salt, r₁, e₁, _) = laws.random_some 32 r in
      let (priv_u, r₂, e₂, l₂) = laws.random_some 32 r₁ in
      let (ak, e₃, l₃) = laws.hkdf_some (p.id_key x salt) [] 16 (omega arith) in
      let (nonce, r₄, e₄, l₄) = laws.random_some 12 r₂ in
      let (c, e₅, opens) = laws.open_seal ak nonce (priv_u ++ pub_s) l₃ l₄ in
      (
        record { envu = c; envu_nonce = nonce; pubu = p.key_gen priv_u; salt = salt },
        r₄,
        rw (e, e₁, key_length x salt, e₂, e₃, e₄, e₅),
        record {
          priv_u = priv_u;
          aes_key = ak;
          derives = e₃;
          opens = opens;
          public = refl;
          priv_u_length = l₂;
        },
      )

  pub derive_session_token_lem :
      (d : p.FinalizeData) (eval : List p.Element) (x pub_s nonce shared_key : Bytes)
      (env : Envelope) (sealed : IsSealed x pub_s env) (r : R)
      → p.finalize d eval ≡ some (x ∷ [])
      → length pub_s ≡ 32
      → p.shared sealed.priv_u pub_s ≡ some shared_key
      → (tag : Bytes) × (derive_session_token p d eval env.envu env.envu_nonce env.salt nonce r
          ≡ (some (nonce ++ tag), r))
        × (p.hkdf shared_key nonce 32 ≡ some tag)
        × (length tag ≡ 32)
  unfolding derive_session_token finalize_request harden_oprf_result salt_for decrypt_env_u
  derive_session_token_lem d eval x pub_s nonce sk env sealed r e ls shares =
      let u = sealed.priv_u in
      let lu = sealed.priv_u_length in
      let (tag, derives, lt) = laws.hkdf_some sk nonce 32 (omega arith) in
      (
        tag,
        rw (
          e,
          key_length x env.salt,
          sealed.derives,
          sealed.opens,
          holds_two_keys u pub_s lu ls,
          take-append 32 u pub_s lu,
          drop-append 32 u pub_s lu,
          to_key-full u lu,
          to_key-full pub_s ls,
          shares,
          derives,
        ),
        derives,
        lt,
      )
