-- ===== src/Opaque/Session.antt =====
-- A registration and an authentication between a client and a server, as
-- protocol-lib/functional_test.go puts them together.
use plissken.Base.{Text, Bool}
use plissken.Opaque.Go.{Bytes, Go, ◌>>=◌}
use plissken.Opaque.Primitives.{Primitives}
use plissken.Opaque.Client.{make_oprf_request, make_env_u, derive_session_token}
use plissken.Opaque.Server.{
  Storage, World, Server, of_random, handle_new_user_request, store_user_data,
  handle_new_user_authentication, is_authenticated,
}

module _ {R S : Type 0} (p : Primitives R) (st : Storage S) (s : Server)
    (apptoken username : Text) where
  unfoldable pub register : Bytes → Go (World R S) (Unit {0})
  register password = do
    req ← of_random (make_oprf_request p password)
    eval ← handle_new_user_request p st s apptoken username req.eval_req
    env ← of_random (make_env_u p req.fin_data eval s.pub_s)
    store_user_data p st s apptoken username env.pubu env.envu env.envu_nonce env.salt

  unfoldable pub authenticate : Bytes → Go (World R S) Bytes
  authenticate password = do
    req ← of_random (make_oprf_request p password)
    resp ← handle_new_user_authentication p st s apptoken username req.eval_req
    of_random (
        derive_session_token p req.fin_data resp.eval resp.envu resp.nonce resp.rwd_u_salt
          resp.auth_nonce)

  -- A login, and the server's check of the token.
  unfoldable pub log_in : Bytes → Go (World R S) Bool
  log_in password = do
    token ← authenticate password
    is_authenticated p st s apptoken username token
