-- ===== src/System/Authentication.antt =====
-- An authentication through lib.ts, the bindings and the auth server.
use plissken.Base.{◌≡◌, ◌≢◌, refl, some, [], ◌∷◌, Option, Text, codes, text_eq}
use plissken.Js.Process.{Engine, ok}
use plissken.Js.Run.{Env, Ends, run}
use plissken.Sdk.Classes.{request_json, start_data_json, finalize_json}
use plissken.Sdk.Protocol.{run_password_auth}
use plissken.Sdk.Completion.{Confirms, run_password_auth-Confirms}
use plissken.Opaque.Go.{Bytes, length}
use plissken.Opaque.Primitives.{Primitives, Laws}
use plissken.Opaque.Server.{World, Server}
use plissken.Opaque.Envelopes.{digest}
use plissken.Opaque.Steps.{handle_new_user_authentication-Answered}
use plissken.Opaque.Tokens.{
  IsRegistered, IsToken, is_authenticated-IsToken, derive_session_token-IsToken,
}
use plissken.Common.Documents.{IsAscii}
use plissken.Common.Codec.{HexLaws, GoJson, JsonLaws}
use plissken.Common.Messages.{StartPasswordAuthServerResp}
use plissken.AuthServer.Redis.{Redis, RedisLaws, Encodings, EncodingLaws, Value}
use plissken.AuthServer.RedisWrapper.{redis_storage, has_session_token}
use plissken.AuthServer.Kept.{IsKept, session_token_kept_lem}
use plissken.AuthServer.Agreement.{redis_storage-Keeps}
use plissken.AuthServer.Handlers.{status, handle_finalize_password_authentication}
use plissken.System.Environment.{Connected, response}
use plissken.System.Forwarding.{finalize_json_lem}
use plissken.System.Server.{start_authentication_lem, finalize_authentication_lem}
use plissken.System.Client
use plissken.System.Client.{make_request-Made, start_data_lem}

module _ {R D : Type 0} (p : Primitives R) (laws : Laws p) (r : Redis D) (c : Encodings)
    {value : D → Text → Option Value} {secrets : Text → Option Value} (rl : RedisLaws r value)
    (cl : EncodingLaws c) (hl : HexLaws c.hex) (s : Server) where
  -- The last step for a registered user with a token.
  finished_lem :
      (a u password token : Text) (w : World R D)
      → IsToken p laws (redis_storage r c) s a u token w.store
      → IsRegistered p laws (redis_storage r c) s a u (IsKept value secrets) password w.store
      → (w' : World R D) × (handle_finalize_password_authentication p r c s
            (some (record { username = u; app_token = a; session_token = c.hex.encode token }))
            w
          ≡ (status 200, w'))
        × ((t : Text)
            → has_session_token r c a u t w'.store
              ≡ (some (text_eq (c.hex.encode token) t), w'.store))
        × IsRegistered p laws (redis_storage r c) s a u (IsKept value secrets) password w'.store
  unfolding handle_finalize_password_authentication
  finished_lem a u password token w t g =
      let (d', stores, has, loads, good) =
        session_token_kept_lem r c rl cl a u (c.hex.encode token) 900 g.envelope w.store g.good
          g.loads in
      (
        record { random = w.random; store = d' },
        rw (
          hl.decode-encode token,
          is_authenticated-IsToken p laws (redis_storage r c) s a u token w t,
          stores,
        ),
        has,
        record {
          envelope = g.envelope;
          key = g.key;
          loads = loads;
          unmarshals = g.unmarshals;
          sealed = g.sealed;
          good = good;
        },
      )

  module _ (g : GoJson) (js : Engine) (jl : JsonLaws js g) {X : Type 0} (env : Env (World R D × X))
      (endpoint : Text) (net : Connected p r c g js s env endpoint) (key : Text)
      (own_key : s.pub_s ≡ p.key_gen s.priv_s) (own_length : length s.priv_s ≡ 32) where
    authenticate-Confirms :
        (a u password : Text) (w : World R D) (z : X)
        → c.hex.decode key ≡ some s.pub_s
        → u ≢ []
        → password ≢ []
        → IsAscii a
        → IsAscii u
        → IsAscii password
        → IsRegistered p laws (redis_storage r c) s a u (IsKept value secrets) password w.store
        → (token : Bytes) × (w' : World R D) × Confirms js env a u password key endpoint
            (w, z)
            (c.hex.encode token)
            (w', z)
          × ((t : Text)
              → has_session_token r c a u t w'.store
                ≡ (some (text_eq (c.hex.encode token) t), w'.store))
          × IsRegistered p laws (redis_storage r c) s a u (IsKept value secrets) password w'.store
    authenticate-Confirms a u password w z ek nu np pa pu pp registered =
        let st = redis_storage r c in
        let keeps = redis_storage-Keeps r c rl cl in
        let x = make_request-Made p laws c.hex hl js g jl a u password w.random nu np pa pu in
        let k = registered.key in
        let y = laws.prf k (digest p laws password) in
        let v = registered.envelope in
        let w₁ : World R D = record { random = x.after; store = w.store } in
        let q =
          handle_new_user_authentication-Answered p laws st (IsKept value secrets) keeps s a u
            x.req.eval_req v k (λ eval. p.finalize x.req.fin_data eval ≡ some (y ∷ [])) w₁
            registered.good registered.loads registered.unmarshals (x.serves k) in
        let resp : StartPasswordAuthServerResp p.Element = record {
          eval = q.eval;
          env_u = v.envu;
          env_u_nonce = v.envu_nonce;
          rwd_u_salt = v.user_key_salt;
          auth_nonce = q.nonce;
        } in
        let (t, j, start_data, marshals, parses, reads, sees) =
          start_data_lem p laws c.hex hl js g jl resp in
        let (token, derives, is_token) =
          derive_session_token-IsToken p laws st s a u own_key own_length x.req.fin_data q.eval y v
            q.nonce q.after.random q.after.store registered.sealed q.holds q.nonce_length q.found
            q.loads in
        let request = js.stringify (request_json x.request) in
        let (w', finished, has, again) = finished_lem a u password token q.after is_token (record {
          envelope = v;
          key = k;
          loads = q.loads;
          unmarshals = registered.unmarshals;
          sealed = registered.sealed;
          good = q.good;
        }) in
        let (body, received) = net.received_status in
        let last = js.stringify (
          finalize_json
            (record { apptoken = a; username = u; session_token = c.hex.encode token })) in
        (
          token,
          w',
          record {
            made = x.made;
            document = x.document;
            request = x.request;
            started = response 200 j;
            finalized = response 200 body;
            start_data = start_data;
            w₁ = (w₁, z);
            w₂ = (q.after, z);
            w₃ = (q.after, z);
            makes = net.returns _ w z _ _ (pa, pu, pp) x.returns;
            parses = x.parses;
            reads = x.reads;
            starts = rw (
              net.posts (codes "/start_password_authentication") request w₁ z,
              start_authentication_lem p r c g s request w₁ q.after _ _ x.sees q.answers,
              net.received_authentication resp t j marshals parses,
            );
            started_ok = refl;
            start_reads = reads;
            derives = net.returns _ q.after z _ _ pu (
                Client.finalize_authentication_lem p laws c.hex hl js g jl u request
                  (js.stringify (start_data_json start_data)) key s.pub_s token q.after.random
                  q.after.random _ resp ek x.sees sees derives);
            finalizes = rw (
              net.posts (codes "/finalize_password_authentication") last q.after z,
              finalize_authentication_lem p r c g s last q.after w' _ (
                  finalize_json_lem js g jl a u (c.hex.encode token) pa pu
                    (hl.encode-IsAscii token)),
              finished,
              received,
            );
            finalized_ok = refl;
          },
          has,
          again,
        )

    pub run_password_auth-IsRegistered :
        (a u password : Text) (w : World R D) (z : X)
        → c.hex.decode key ≡ some s.pub_s
        → u ≢ []
        → password ≢ []
        → IsAscii a
        → IsAscii u
        → IsAscii password
        → IsRegistered p laws (redis_storage r c) s a u (IsKept value secrets) password w.store
        → (token : Bytes) × (w' : World R D) × Ends
            (run env (run_password_auth js a u password key endpoint) (w, z))
            (ok (c.hex.encode token))
            (w', z)
          × ((t : Text)
              → has_session_token r c a u t w'.store
                ≡ (some (text_eq (c.hex.encode token) t), w'.store))
          × IsRegistered p laws (redis_storage r c) s a u (IsKept value secrets) password w'.store
    run_password_auth-IsRegistered a u password w z ek nu np pa pu pp registered =
        let (token, w', confirms, has, again) =
          authenticate-Confirms a u password w z ek nu np pa pu pp registered in
        (
          token,
          w',
          (run_password_auth-Confirms js env a u password key endpoint (w, z) (w', z)
                (c.hex.encode token)).1
              confirms,
          has,
          again,
        )
