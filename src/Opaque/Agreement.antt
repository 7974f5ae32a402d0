-- ===== src/Opaque/Agreement.antt =====
-- Registrations and logins over any storage that keeps what is stored.
use plissken.Base.{◌≡◌, refl, Option, none, some, ◌∷◌, [], Text, true}
use plissken.Opaque.Go.{Bytes, length}
use plissken.Opaque.Slices.{to_key-length}
use plissken.Opaque.Primitives.{Primitives, Laws}
use plissken.Opaque.Envelopes.{digest, make_oprf_request_lem, make_env_u-IsSealed}
use plissken.Opaque.Server.{Storage, World, Server, new_server}
use plissken.Opaque.Stored.{Keeps}
use plissken.Opaque.Steps.{
  handle_new_user_request-Requested, store_user_data_lem, handle_new_user_authentication-Answered,
}
use plissken.Opaque.Tokens.{
  IsRegistered, IsToken, is_authenticated-IsToken, derive_session_token-IsToken,
}
use plissken.Opaque.Session.{register, authenticate, log_in}

module _ {R S : Type 0} (p : Primitives R) (laws : Laws p) (st : Storage S) (IsGood : S → Type 0)
    (keeps : Keeps st IsGood) (s : Server) (apptoken username : Text) where
  register-IsRegistered :
      (password : Bytes) (w : World R S)
      → IsGood w.store
      → (w' : World R S) × (register p st s apptoken username password w ≡ (some tt, w'))
        × IsRegistered p laws st s apptoken username IsGood password w'.store
  unfolding register
  register-IsRegistered password w good =
      let (req, r₁, e₁, _, serves) = make_oprf_request_lem p laws password w.random in
      let y = λ (k : p.PrivateKey). laws.prf k (digest p laws password) in
      let q =
        handle_new_user_request-Requested p laws st IsGood keeps s apptoken username req.eval_req
          (λ k eval. p.finalize req.fin_data eval ≡ some (y k ∷ []))
          (record { random = r₁; store = w.store }) good serves in
      let (env, r₂, e₂, sealed) =
        make_env_u-IsSealed p laws req.fin_data q.eval (y q.key) s.pub_s q.after.random q.holds in
      let (w', e₃, loads, good') =
        store_user_data_lem p laws st IsGood keeps s apptoken username env.pubu env.envu
          env.envu_nonce env.salt (record { client_oprf_priv_key = q.serialized })
          (record { random = r₂; store = q.after.store }) q.good q.loads in
      (
        w',
        rw (e₁, q.answers, e₂, e₃),
        record {
          envelope = _;
          key = q.key;
          loads = loads;
          unmarshals = q.unmarshals;
          sealed = sealed;
          good = good';
        },
      )

  module _ (own_key : s.pub_s ≡ p.key_gen s.priv_s) (own_length : length s.priv_s ≡ 32) where
    authenticate-IsToken :
        (password : Bytes) (w : World R S)
        → IsRegistered p laws st s apptoken username IsGood password w.store
        → (token : Bytes) × (w' : World R S) × (authenticate p st s apptoken username password w
            ≡ (some token, w'))
          × IsToken p laws st s apptoken username token w'.store
          × IsRegistered p laws st s apptoken username IsGood password w'.store
    unfolding authenticate
    authenticate-IsToken password w g =
        let (req, r₁, e₁, _, serves) = make_oprf_request_lem p laws password w.random in
        let y = laws.prf g.key (digest p laws password) in
        let q =
          handle_new_user_authentication-Answered p laws st IsGood keeps s apptoken username
            req.eval_req g.envelope g.key (λ eval. p.finalize req.fin_data eval ≡ some (y ∷ []))
            (record { random = r₁; store = w.store }) g.good g.loads g.unmarshals (serves g.key) in
        let (token, e₂, t) =
          derive_session_token-IsToken p laws st s apptoken username own_key own_length req.fin_data
            q.eval y g.envelope q.nonce q.after.random q.after.store g.sealed q.holds q.nonce_length
            q.found q.loads in
        (
          token,
          q.after,
          rw (e₁, q.answers, e₂),
          t,
          record {
            envelope = g.envelope;
            key = g.key;
            loads = q.loads;
            unmarshals = g.unmarshals;
            sealed = g.sealed;
            good = q.good;
          },
        )

    log_in-IsRegistered :
        (password : Bytes) (w : World R S)
        → IsRegistered p laws st s apptoken username IsGood password w.store
        → (w' : World R S) × (log_in p st s apptoken username password w ≡ (some true, w'))
          × IsRegistered p laws st s apptoken username IsGood password w'.store
    unfolding log_in
    log_in-IsRegistered password w g =
        let (token, w', e, t, g') = authenticate-IsToken password w g in
        (w', rw (e, is_authenticated-IsToken p laws st s apptoken username token w' t), g')

pub new_server_lem :
    {R : Type 0} (p : Primitives R)
    → Laws p
    → (input : Option Bytes) (r : R)
    → (s : Server) × (r' : R) × (new_server p input r ≡ (some s, r'))
      × (s.pub_s ≡ p.key_gen s.priv_s)
      × (length s.priv_s ≡ 32)
unfolding new_server
new_server_lem p laws none r =
    let (b, r', e, l) = laws.random_some 32 r in
    (record { priv_s = b; pub_s = p.key_gen b }, r', rw e, refl, l)
new_server_lem p laws (some input) r = (_, r, refl, refl, to_key-length input)

-- A new server, with a private key of its own or a given one, registers a user with any password,
-- and then the same password logs the user in, twice in a row. The libraries satisfy `Laws` and the
-- storage `Keeps` and starts in a good state; none of the steps fails.
pub log_in-register :
    {R S : Type 0} (p : Primitives R)
    → Laws p
    → (st : Storage S) (IsGood : S → Type 0) (keeps : Keeps st IsGood)
    → (input : Option Bytes) (apptoken username : Text) (password : Bytes) (r : R) (store : S)
    → IsGood store
    → (s : Server) × (r' : R) × (w₁ w₂ w₃ : World R S) × (new_server p input r ≡ (some s, r'))
      × (register p st s apptoken username password (record { random = r'; store = store })
          ≡ (some tt, w₁))
      × (log_in p st s apptoken username password w₁ ≡ (some true, w₂))
      × (log_in p st s apptoken username password w₂ ≡ (some true, w₃))
log_in-register p laws st IsGood keeps input a u password r store good =
    let (s, r', e, own, len) = new_server_lem p laws input r in
    let (w₁, e₁, g₁) =
      register-IsRegistered p laws st IsGood keeps s a u password
        (record { random = r'; store = store }) good in
    let (w₂, e₂, g₂) = log_in-IsRegistered p laws st IsGood keeps s a u own len password w₁ g₁ in
    let (w₃, e₃, _) = log_in-IsRegistered p laws st IsGood keeps s a u own len password w₂ g₂ in
    (s, r', w₁, w₂, w₃, e, e₁, e₂, e₃)
