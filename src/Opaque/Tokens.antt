-- ===== src/Opaque/Tokens.antt =====
-- Users that are registered, and the tokens that they derive.
use plissken.Base.{◌≡◌, refl, some, ◌++◌, ◌∷◌, [], List, Text, true, ◌==◌, text_eq_refl}
use plissken.Opaque.Go.{Bytes, length, to_key}
use plissken.Opaque.Slices.{length-append, take-append, drop-append, to_key-full}
use plissken.Opaque.Primitives.{Primitives, Laws}
use plissken.Opaque.Client.{Envelope, derive_session_token}
use plissken.Opaque.Envelopes.{digest, IsSealed, derive_session_token_lem}
use plissken.Opaque.Server.{UserEnvelope, Storage, World, Server, is_authenticated}

-- What the client made of what the server has stored.
abbrev pub envelope_of : UserEnvelope → Envelope
envelope_of x = record {
  envu = x.envu;
  envu_nonce = x.envu_nonce;
  pubu = x.user_pub_key;
  salt = x.user_key_salt;
}

module _ {R S : Type 0} (p : Primitives R) (laws : Laws p) (st : Storage S) (s : Server)
    (apptoken username : Text) where
  -- The storage has an envelope that opens with this password.
  pub record IsRegistered (IsGood : S → Type 0) (password : Bytes) (d : S) : Type 0 where
    pub envelope : UserEnvelope
    pub key : p.PrivateKey
    pub loads : st.load_user_envelope apptoken username d ≡ (some envelope, d)
    pub unmarshals : p.unmarshal_key envelope.oprf_priv_key ≡ some key
    pub sealed :
        IsSealed p laws (laws.prf key (digest p laws password)) s.pub_s (envelope_of envelope)
    pub good : IsGood d

  -- A token that the server has the nonce of, and derives the rest of.
  pub record IsToken (token : Bytes) (d : S) : Type 0 where
    pub nonce : Bytes
    pub tag : Bytes
    pub envelope : UserEnvelope
    pub shared_key : Bytes
    pub form : token ≡ nonce ++ tag
    pub nonce_length : length nonce ≡ 12
    pub tag_length : length tag ≡ 32
    pub found : st.has_auth_nonce apptoken username nonce d ≡ (some true, d)
    pub loads : st.load_user_envelope apptoken username d ≡ (some envelope, d)
    pub shares : p.shared s.priv_s (to_key envelope.user_pub_key) ≡ some shared_key
    pub derives : p.hkdf shared_key nonce 32 ≡ some tag

  token_length : (a b : Bytes) → length a ≡ 12 → length b ≡ 32 → (length (a ++ b) == 44) ≡ true
  token_length a b ea eb = rw (length-append a b, ea, eb)

  pub is_authenticated-IsToken :
      (token : Bytes) (w : World R S)
      → IsToken token w.store
      → is_authenticated p st s apptoken username token w ≡ (some true, w)
  unfolding is_authenticated
  is_authenticated-IsToken token w t =
      let n = t.nonce in
      let l = t.tag_length in
      rw (
        t.form,
        token_length n t.tag t.nonce_length l,
        take-append 12 n t.tag t.nonce_length,
        drop-append 12 n t.tag t.nonce_length,
        t.found,
        t.loads,
        t.shares,
        t.derives,
        to_key-full t.tag l,
        text_eq_refl t.tag,
      )

  module _ (own_key : s.pub_s ≡ p.key_gen s.priv_s) (own_length : length s.priv_s ≡ 32) where
    -- What a user derives of the answer to an authentication is a token.
    pub derive_session_token-IsToken :
        (d : p.FinalizeData) (eval : List p.Element) (y : Bytes) (x : UserEnvelope) (nonce : Bytes)
        (r : R) (store : S)
        → IsSealed p laws y s.pub_s (envelope_of x)
        → p.finalize d eval ≡ some (y ∷ [])
        → length nonce ≡ 12
        → st.has_auth_nonce apptoken username nonce store ≡ (some true, store)
        → st.load_user_envelope apptoken username store ≡ (some x, store)
        → (token : Bytes) × (derive_session_token p d eval x.envu x.envu_nonce x.user_key_salt nonce
              r
            ≡ (some token, r))
          × IsToken token store
    derive_session_token-IsToken d eval y x nonce r store sealed e ln found loads =
        let u = sealed.priv_u in
        let lu = sealed.priv_u_length in
        let ls : length s.pub_s ≡ 32 = rw (own_key, laws.key_gen_length s.priv_s own_length) in
        let (sk, e₁, e₂) = laws.shared_comm u s.priv_s lu own_length in
        let (tag, e₃, derives, lt) =
          derive_session_token_lem p laws d eval y s.pub_s nonce sk (envelope_of x) sealed r e ls
            (rw (own_key, e₁)) in
        (
          nonce ++ tag,
          e₃,
          record {
            nonce = nonce;
            tag = tag;
            envelope = x;
            shared_key = sk;
            form = refl;
            nonce_length = ln;
            tag_length = lt;
            found = found;
            loads = loads;
            shares = rw (sealed.public, to_key-full (p.key_gen u) (laws.key_gen_length u lu), e₂);
            derives = derives;
          },
        )
