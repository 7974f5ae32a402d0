-- ===== src/Tests/NodeClient.antt =====
-- The Node.js client in an environment where all goes well, and in one where all is refused.
use plissken.Base.{◌≡◌, ◌⊎◌}
use plissken.Js.Process.{ok}
use plissken.Js.Run.{run}
use plissken.NodeClient.{main}
use plissken.NodeClient.Order.{IsDemo, IsReported, main-Ends}
use plissken.Tests.Setting.{engine, friendly}

main-Ends_example :
    ((run friendly (main engine) 0).result ≡ ok tt)
    × (IsDemo engine (run friendly (main engine) 0).events
        ⊎ IsReported engine (run friendly (main engine) 0).events)
main-Ends_example = main-Ends engine friendly 0
