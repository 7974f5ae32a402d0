-- ===== src/Sdk/Secrecy.antt =====
-- Where the password goes.
use plissken.Base.{◌≡◌, Text}
use plissken.Js.Process.{Engine, make_oprf_request}
use plissken.Js.Run.{Env, Outcome, run, requests}
use plissken.Sdk.Protocol.{run_password_auth, run_password_reg}

-- Two runs that the network cannot tell apart, and that end alike.
pub record SameOutside {W A : Type 0} (o o' : Outcome W A) : Type 0 where
  pub result : o.result ≡ o'.result
  pub world : o.world ≡ o'.world
  pub sent : requests o.events ≡ requests o'.events

-- The password reaches the network and the result through `make_oprf_request` only: where that
-- answers alike for two passwords, an authentication and a registration with one send the same
-- requests, end alike and leave the same world as with the other.
pub run-SameOutside :
    {W : Type 0} (js : Engine) (env : Env W) (w : W)
    (apptoken username password other server_pub_key endpoint : Text)
    → env.bindings (make_oprf_request apptoken username password) w
      ≡ env.bindings (make_oprf_request apptoken username other) w
    → SameOutside
        (run env (run_password_auth js apptoken username password server_pub_key endpoint) w)
        (run env (run_password_auth js apptoken username other server_pub_key endpoint) w)
      × SameOutside
          (run env (run_password_reg js apptoken username password server_pub_key endpoint) w)
          (run env (run_password_reg js apptoken username other server_pub_key endpoint) w)
unfolding run requests run_password_auth run_password_reg
run-SameOutside js env w apptoken username password other server_pub_key endpoint same = (
  record { result = rw same; world = rw same; sent = rw same },
  record { result = rw same; world = rw same; sent = rw same },
)
