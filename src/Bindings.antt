-- ===== src/Bindings.antt =====
-- auth-server/cmd/js-bindings/main.go: what the JavaScript code calls of protocol-lib. A panic is
-- `none`; the lines for the console are left out.
use plissken.Base.{true, false, ◌||◌, Text, text_eq, [], if◌then◌else◌}
use plissken.Js.Process.{
  Call, make_oprf_request, finalize_password_registration, finalize_password_authentication,
  date_now,
}
use plissken.Opaque.Go.{Go, pure, fail, lift, provided, ◌>>=◌, to_key}
use plissken.Opaque.Primitives.{Primitives}
use plissken.Opaque.Client
use plissken.Opaque.Client.{make_env_u, derive_session_token}
use plissken.Common.Codec.{Hex, GoJson}
use plissken.Common.Messages.{
  marshal_request, unmarshal_request, unmarshal_evaluation, marshal_registration, unmarshal_start,
}

module _ {R : Type 0} (p : Primitives R) (h : Hex) (g : GoJson) where
  -- `makeOprfRequest`.
  unfoldable pub make_request : (apptoken username password : Text) → Go R Text
  make_request apptoken username password =
      provided (if text_eq username [] || text_eq password [] then false else true) do
        req ← Client.make_oprf_request p password
        lift (
            marshal_request p h g (record {
              username = username;
              app_token = apptoken;
              inputs = req.inputs;
              fin_data = req.fin_data;
              eval_req = req.eval_req;
            }))

  -- `finalizePasswordRegistration`.
  unfoldable pub finalize_registration :
      (apptoken username oprf_request oprf_server_eval server_pub_key : Text) → Go R Text
  finalize_registration apptoken username oprf_request oprf_server_eval server_pub_key = do
    b ← lift (h.decode server_pub_key)
    oprf_req ← lift (unmarshal_request p h g oprf_request)
    eval ← lift (unmarshal_evaluation p h g oprf_server_eval)
    env ← make_env_u p oprf_req.fin_data eval (to_key b)
    lift (
        marshal_registration p h g (record {
          username = username;
          app_token = apptoken;
          env_u = env.envu;
          env_u_nonce = env.envu_nonce;
          pub_u = env.pubu;
          salt = env.salt;
        }))

  -- `finalizePasswordAuthentication`. The key is decoded, and then not used.
  unfoldable pub finalize_authentication :
      (username oprf_request start_password_auth_data server_pub_key : Text) → Go R Text
  finalize_authentication username oprf_request start_password_auth_data server_pub_key = do
    b ← lift (h.decode server_pub_key)
    oprf_req ← lift (unmarshal_request p h g oprf_request)
    resp ← lift (unmarshal_start p h g start_password_auth_data)
    session_token ←
        derive_session_token p oprf_req.fin_data resp.eval resp.env_u resp.env_u_nonce
          resp.rwd_u_salt resp.auth_nonce
    pure (h.encode session_token)

  -- `main`: the functions under the names that they are exported by. The clock is none of them.
  unfoldable pub exports : Call → Go R Text
  exports (make_oprf_request a u password) = make_request a u password
  exports (finalize_password_registration a u request eval key) =
      finalize_registration a u request eval key
  exports (finalize_password_authentication u request resp key) =
      finalize_authentication u request resp key
  exports date_now = fail
