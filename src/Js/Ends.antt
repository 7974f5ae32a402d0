-- ===== src/Js/Ends.antt =====
-- How runs of composed processes end.
use plissken.Base.{◌≡◌, refl, sym, subst, ap}
use plissken.Js.Process.{
  Process, Result, ok, throw, Thrown, ended, print, call, send, ◌>>=◌, try_catch,
}
use plissken.Js.Run.{Env, Ends, after, run, printed, called, sent}

module _ {W : Type 0} (env : Env W) where
  ended-bind :
      {A B : Type 0} (x : Result A) (f : A → Process B) (a : A) (r : Result B) (w w' : W)
      → x ≡ ok a
      → Ends (run env (f a) w) r w'
      → Ends (run env (ended x >>= f) w) r w'
  ended-bind x f a r w w' e h = subst (λ y. Ends (run env (ended y >>= f) w) r w') (sym e) h

  pub Ends-bind :
      {A B : Type 0} (p : Process A) (f : A → Process B) (a : A) (r : Result B) (w w' w'' : W)
      → Ends (run env p w) (ok a) w'
      → Ends (run env (f a) w') r w''
      → Ends (run env (p >>= f) w) r w''
  unfolding run
  Ends-bind (ended x) f a r w w' w'' h k =
      ended-bind x f a r w w'' h.result (subst (λ v. Ends (run env (f a) v) r w'') (sym h.world) k)
  Ends-bind (print l p) f a r w w' w'' h k =
      let e = Ends-bind p f a r w w' w'' (record { result = h.result; world = h.world }) k in
      record { result = e.result; world = e.world }
  Ends-bind (call c q) f a r w w' w'' h k =
      let (x, v) = env.bindings c w in
      let e = Ends-bind (q x) f a r v w' w'' (record { result = h.result; world = h.world }) k in
      record { result = e.result; world = e.world }
  Ends-bind (send c q) f a r w w' w'' h k =
      let (x, v) = env.http c w in
      let e = Ends-bind (q x) f a r v w' w'' (record { result = h.result; world = h.world }) k in
      record { result = e.result; world = e.world }

  -- Nothing is caught where nothing is thrown.
  pub run-try_catch :
      {A : Type 0} (p : Process A) (h : Thrown → Process A) (a : A) (w : W)
      → (run env p w).result ≡ ok a
      → run env (try_catch p h) w ≡ run env p w
  unfolding run
  run-try_catch (ended (ok x)) h a w e = refl
  run-try_catch (ended (throw x)) h a w e = cc
  run-try_catch (print l p) h a w e = ap (after (printed l)) (run-try_catch p h a w e)
  run-try_catch (call c q) h a w e =
      let (x, v) = env.bindings c w in ap (after (called c x)) (run-try_catch (q x) h a v e)
  run-try_catch (send c q) h a w e =
      let (x, v) = env.http c w in ap (after (sent c x)) (run-try_catch (q x) h a v e)
