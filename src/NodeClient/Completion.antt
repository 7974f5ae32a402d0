-- ===== src/NodeClient/Completion.antt =====
-- When the Node.js client meets no error.
use plissken.Base.{◌≡◌, sym, subst, ap, ◌∙◌}
use plissken.Js.Process.{Engine, ok}
use plissken.Js.Run.{Env, run}
use plissken.Js.Ensures.{returned}
use plissken.Js.Ends.{run-try_catch}
use plissken.NodeClient.{try_main, main}
use plissken.NodeClient.Order.{IsDemo, try_main-IsDemo}

pub main-IsDemo :
    {W : Type 0} (js : Engine) (env : Env W) (w : W)
    → (run env (try_main js) w).result ≡ ok tt
    → ((run env (main js) w).result ≡ ok tt) × IsDemo js (run env (main js) w).events
unfolding main
main-IsDemo js env w e =
    let h = run-try_catch env (try_main js) _ tt w e in
    (
      ap (λ o. o.result) h ∙ e,
      subst (λ o. IsDemo js o.events) (sym h)
          (returned (λ t _. IsDemo js t) env (try_main js) w tt (try_main-IsDemo js) e),
    )
