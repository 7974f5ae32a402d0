-- ===== src/System/Registration.antt =====
-- A registration through lib.ts, the bindings and the auth server.
use plissken.Base.{◌≡◌, ◌≢◌, refl, none, some, [], ◌∷◌, Option, Text, codes}
use plissken.Js.Process.{Engine, ok}
use plissken.Js.Run.{Env, Ends, run}
use plissken.Sdk.Classes.{request_json, evaluation_json, registration_json}
use plissken.Sdk.Protocol.{run_password_reg}
use plissken.Sdk.Completion.Registered.{Registers, run_password_reg-Registers}
use plissken.Opaque.Go.{length}
use plissken.Opaque.Primitives.{Primitives, Laws}
use plissken.Opaque.Server.{World, Server}
use plissken.Opaque.Envelopes.{digest}
use plissken.Opaque.Steps.{handle_new_user_request-Requested, store_user_data_lem}
use plissken.Opaque.Tokens.{IsRegistered}
use plissken.Common.Documents.{IsAscii}
use plissken.Common.Codec.{HexLaws, GoJson, JsonLaws}
use plissken.AuthServer.Redis.{Redis, RedisLaws, Encodings, EncodingLaws, Value}
use plissken.AuthServer.RedisWrapper.{redis_storage, user_request_key}
use plissken.AuthServer.Kept.{IsKept}
use plissken.AuthServer.Agreement.{redis_storage-Keeps}
use plissken.System.Environment.{Connected, response}
use plissken.System.Server.{start_registration_lem, finalize_registration_lem}
use plissken.System.Client.{make_request-Made, evaluation_lem, finalize_registration-Finished}

module _ {R D : Type 0} (p : Primitives R) (laws : Laws p) (r : Redis D) (c : Encodings)
    {value : D → Text → Option Value} {secrets : Text → Option Value} (rl : RedisLaws r value)
    (cl : EncodingLaws c) (hl : HexLaws c.hex) (g : GoJson) (js : Engine) (jl : JsonLaws js g)
    (s : Server) {X : Type 0} (env : Env (World R D × X)) (endpoint : Text)
    (net : Connected p r c g js s env endpoint) (key : Text) where
  register-Registers :
      (a u password : Text) (w : World R D) (z : X)
      → c.hex.decode key ≡ some s.pub_s
      → length s.pub_s ≡ 32
      → u ≢ []
      → password ≢ []
      → IsAscii a
      → IsAscii u
      → IsAscii password
      → IsKept value secrets w.store
      → value w.store (user_request_key a u) ≡ none
      → (w' : World R D) × Registers js env a u password key endpoint (w, z) (w', z)
        × IsRegistered p laws (redis_storage r c) s a u (IsKept value secrets) password w'.store
  register-Registers a u password w z ek lk nu np pa pu pp good free =
      let st = redis_storage r c in
      let keeps = redis_storage-Keeps r c rl cl in
      let x = make_request-Made p laws c.hex hl js g jl a u password w.random nu np pa pu in
      let y = λ (k : p.PrivateKey). laws.prf k (digest p laws password) in
      let q =
        handle_new_user_request-Requested p laws st (IsKept value secrets) keeps s a u
          x.req.eval_req (λ k eval. p.finalize x.req.fin_data eval ≡ some (y k ∷ []))
          (record { random = x.after; store = w.store }) good x.serves in
      let (t, j, evaluation, marshals, parses, reads, sees) =
        evaluation_lem p laws c.hex hl js g jl q.eval in
      let request = js.stringify (request_json x.request) in
      let f =
        finalize_registration-Finished p laws c.hex hl js g jl a u request
          (js.stringify (evaluation_json evaluation)) key (y q.key) s.pub_s q.after.random _ q.eval
          pa pu ek lk x.sees sees q.holds in
      let e = f.env in
      let w₃ : World R D = record { random = f.after; store = q.after.store } in
      let (w', stores, loads, good') =
        store_user_data_lem p laws st (IsKept value secrets) keeps s a u e.pubu e.envu e.envu_nonce
          e.salt (record { client_oprf_priv_key = q.serialized }) w₃ q.good q.loads in
      let (body, accepts) = net.received_status in
      (
        w',
        record {
          made = x.made;
          document = x.document;
          request = x.request;
          started = response 200 j;
          evaluation = evaluation;
          finalized = f.finalized;
          registration = f.document;
          registration_data = f.registration;
          accepted = response 200 body;
          w₁ = (record { random = x.after; store = w.store }, z);
          w₂ = (q.after, z);
          w₃ = (w₃, z);
          makes = net.returns _ w z _ _ (pa, pu, pp) x.returns;
          parses = x.parses;
          reads = x.reads;
          starts = rw (
            net.posts (codes "/start_password_registration") request
                (record { random = x.after; store = w.store }) z,
            start_registration_lem p r c g s request (record { random = x.after; store = w.store })
                q.after rl _ q.eval x.sees free q.answers,
            net.received_evaluation q.eval t j marshals parses,
          );
          start_reads = reads;
          finalizes = net.returns _ q.after z _ _ (pa, pu) f.returns;
          finalized_parses = f.parses;
          finalized_reads = f.reads;
          accepts = rw (
            net.posts (codes "/finalize_password_registration")
                (js.stringify (registration_json f.registration)) w₃ z,
            finalize_registration_lem p r c g s (js.stringify (registration_json f.registration)) w₃
                w' _ f.sees stores,
            accepts,
          );
          accepted_ok = refl;
        },
        record {
          envelope = _;
          key = q.key;
          loads = loads;
          unmarshals = q.unmarshals;
          sealed = f.sealed;
          good = good';
        },
      )

  pub run_password_reg-IsRegistered :
      (a u password : Text) (w : World R D) (z : X)
      → c.hex.decode key ≡ some s.pub_s
      → length s.pub_s ≡ 32
      → u ≢ []
      → password ≢ []
      → IsAscii a
      → IsAscii u
      → IsAscii password
      → IsKept value secrets w.store
      → value w.store (user_request_key a u) ≡ none
      → (w' : World R D) × Ends
          (run env (run_password_reg js a u password key endpoint) (w, z))
          (ok tt)
          (w', z)
        × IsRegistered p laws (redis_storage r c) s a u (IsKept value secrets) password w'.store
  run_password_reg-IsRegistered a u password w z ek lk nu np pa pu pp good free =
      let (w', registers, registered) =
        register-Registers a u password w z ek lk nu np pa pu pp good free in
      (
        w',
        (run_password_reg-Registers js env a u password key endpoint (w, z) (w', z)).1 registers,
        registered,
      )
