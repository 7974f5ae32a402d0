-- ===== src/Tests/Health.antt =====
-- `check_endpoint_health` with a server that answers everything.
use plissken.Base.{◌≡◌, ◌↔◌, codes, [], ◌∷◌, ◌++◌}
use plissken.Js.Process.{ok, HttpResponse, get}
use plissken.Js.Run.{sent, run}
use plissken.Sdk.Requests.{check_endpoint_health}
use plissken.Sdk.Health.{check_endpoint_health-get}
use plissken.Tests.Setting.{engine, friendly}

check_endpoint_health-get_example :
    (((run friendly (check_endpoint_health engine (codes "http://a")) 0).result ≡ ok tt) ↔ (
      (response : HttpResponse) × ((friendly.http
          (get (codes "http://a" ++ codes "/health") [])
          0).0
        ≡ ok response)
      × (response.status ≡ 200)))
    × ((run friendly (check_endpoint_health engine (codes "http://a")) 0).events
        ≡ sent
            (get (codes "http://a" ++ codes "/health") [])
            (friendly.http (get (codes "http://a" ++ codes "/health") []) 0).0
          ∷ [])
check_endpoint_health-get_example = check_endpoint_health-get engine friendly (codes "http://a") 0
