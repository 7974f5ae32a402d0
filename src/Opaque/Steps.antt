-- ===== src/Opaque/Steps.antt =====
-- The steps of a server over a storage that keeps what is stored.
use plissken.Base.{◌≡◌, some, List, Text, true}
use plissken.Opaque.Go.{Bytes, length}
use plissken.Opaque.Primitives.{Primitives, Laws}
use plissken.Opaque.Server.{
  UserRequest, UserEnvelope, Storage, World, Server, handle_new_user_request, store_user_data,
  handle_new_user_authentication,
}
use plissken.Opaque.Stored.{Keeps}

module _ {R S : Type 0} (p : Primitives R) (laws : Laws p) (st : Storage S) (IsGood : S → Type 0)
    (keeps : Keeps st IsGood) (s : Server) (a u : Text) where
  -- A key that was made for this user, and the answer that it gives.
  pub record Requested (els : List p.Element) (P : p.PrivateKey → List p.Element → Type 0)
      (w : World R S) : Type 0 where
    pub key : p.PrivateKey
    pub serialized : Bytes
    pub eval : List p.Element
    pub after : World R S
    pub answers : handle_new_user_request p st s a u els w ≡ (some eval, after)
    pub holds : P key eval
    pub unmarshals : p.unmarshal_key serialized ≡ some key
    pub loads :
        st.load_user_request a u after.store
        ≡ (some (record { client_oprf_priv_key = serialized }), after.store)
    pub good : IsGood after.store

  pub handle_new_user_request-Requested :
      (els : List p.Element) (P : p.PrivateKey → List p.Element → Type 0) (w : World R S)
      → IsGood w.store
      → ((k : p.PrivateKey) → (eval : List p.Element) × (p.evaluate k els ≡ some eval) × P k eval)
      → Requested els P w
  unfolding handle_new_user_request
  handle_new_user_request-Requested els P w good serves =
      let (k, r, e₁) = laws.generate_key_some w.random in
      let (b, e₂, unmarshals) = laws.marshal_key_some k in
      let (eval, e₃, holds) = serves k in
      let (st', e₄, loads, good') =
        keeps.request_kept a u (record { client_oprf_priv_key = b }) w.store good in
      record {
        key = k;
        serialized = b;
        eval = eval;
        after = record { random = r; store = st' };
        answers = rw (e₁, e₂, e₃, e₄);
        holds = holds;
        unmarshals = unmarshals;
        loads = loads;
        good = good';
      }

  pub store_user_data_lem :
      (pub_u envu nonce salt : Bytes) (q : UserRequest) (w : World R S)
      → IsGood w.store
      → st.load_user_request a u w.store ≡ (some q, w.store)
      → (w' : World R S) × (store_user_data p st s a u pub_u envu nonce salt w ≡ (some tt, w'))
        × (st.load_user_envelope a u w'.store ≡ (
          some (record {
            user_pub_key = pub_u;
            envu = envu;
            envu_nonce = nonce;
            user_key_salt = salt;
            oprf_priv_key = q.client_oprf_priv_key;
          }),
          w'.store,
        ))
        × IsGood w'.store
  unfolding store_user_data
  store_user_data_lem pub_u envu nonce salt q w good e =
      let (st', e', loads, good') =
        keeps.envelope_kept a u
          (record {
            user_pub_key = pub_u;
            envu = envu;
            envu_nonce = nonce;
            user_key_salt = salt;
            oprf_priv_key = q.client_oprf_priv_key;
          })
          w.store good in
      (record { random = w.random; store = st' }, rw (e, e'), loads, good')

  -- The answer to a user with this envelope, and the nonce in it.
  pub record Answered (els : List p.Element) (x : UserEnvelope) (P : List p.Element → Type 0)
      (w : World R S) : Type 0 where
    pub eval : List p.Element
    pub nonce : Bytes
    pub after : World R S
    pub answers : handle_new_user_authentication p st s a u els w ≡ (
      some (record {
        eval = eval;
        envu = x.envu;
        nonce = x.envu_nonce;
        rwd_u_salt = x.user_key_salt;
        auth_nonce = nonce;
      }),
      after,
    )
    pub holds : P eval
    pub nonce_length : length nonce ≡ 12
    pub found : st.has_auth_nonce a u nonce after.store ≡ (some true, after.store)
    pub loads : st.load_user_envelope a u after.store ≡ (some x, after.store)
    pub good : IsGood after.store

  pub handle_new_user_authentication-Answered :
      (els : List p.Element) (x : UserEnvelope) (k : p.PrivateKey) (P : List p.Element → Type 0)
      (w : World R S)
      → IsGood w.store
      → st.load_user_envelope a u w.store ≡ (some x, w.store)
      → p.unmarshal_key x.oprf_priv_key ≡ some k
      → (eval : List p.Element) × (p.evaluate k els ≡ some eval) × P eval
      → Answered els x P w
  unfolding handle_new_user_authentication
  handle_new_user_authentication-Answered els x k P w good loads unmarshals serves =
      let (eval, e₁, holds) = serves in
      let (nonce, r, e₂, l) = laws.random_some 12 w.random in
      let (st', e₃, found, loads', good') = keeps.nonce_kept a u nonce x w.store good loads in
      record {
        eval = eval;
        nonce = nonce;
        after = record { random = r; store = st' };
        answers = rw (loads, unmarshals, e₁, e₂, e₃);
        holds = holds;
        nonce_length = l;
        found = found;
        loads = loads';
        good = good';
      }
