-- ===== src/Js/Completed.antt =====
-- What has been answered when a run returns: one lemma for each kind of step.
use plissken.Base.{◌≡◌, ◌≢◌, refl, true, false, Bool, Text, if◌then◌else◌}
use plissken.Js.Process.{
  Process, Result, ok, throw, Thrown, HttpResponse, Request, Call, Line, ended, print, call, send,
  throws, continue, recover, try_catch, ◌>>=◌,
}
use plissken.Js.Run.{Env, Ends, run}

module _ {W : Type 0} (env : Env W) {B : Type 0} (b : B) (w' : W) where
  not_returned : (e : Thrown) → ◌≢◌ {A = Result B} (throw e) (ok b)
  not_returned e h = cc

  pub ok-completed :
      {A : Type 0} (r : Result A) (f : A → Process B) (w : W)
      → Ends (run env (continue r f) w) (ok b) w'
      → (a : A) × (r ≡ ok a) × Ends (run env (f a) w) (ok b) w'
  unfolding run
  ok-completed (ok a) f w h = (a, refl, h)
  ok-completed (throw e) f w h = absurd (not_returned e h.result)

  answered :
      {A : Type 0} (r : Result A) (f : A → Process B) (v : W) (o : Result A × W)
      → o ≡ (r, v)
      → Ends (run env (continue r f) v) (ok b) w'
      → (a : A) × (u : W) × (o ≡ (ok a, u)) × Ends (run env (f a) u) (ok b) w'
  unfolding run
  answered (ok a) f v o e h = (a, v, e, h)
  answered (throw x) f v o e h = absurd (not_returned x h.result)

  pub print-completed :
      (l : Line) (p : Process B) (w : W)
      → Ends (run env (print l p) w) (ok b) w'
      → Ends (run env p w) (ok b) w'
  unfolding run
  print-completed l p w h = record { result = h.result; world = h.world }

  pub call-completed :
      (c : Call) (f : Text → Process B) (w : W)
      → Ends (run env (call c (λ r. continue r f)) w) (ok b) w'
      → (a : Text) × (u : W) × (env.bindings c w ≡ (ok a, u)) × Ends (run env (f a) u) (ok b) w'
  unfolding run
  call-completed c f w h =
      answered _ f _ (env.bindings c w) refl (record { result = h.result; world = h.world })

  test-completed :
      {A : Type 0} (test : Bool) (p : Process A) (x : Thrown) (f : A → Process B) (w : W)
      → Ends (run env ((if test then p else throws x) >>= f) w) (ok b) w'
      → (test ≡ true) × Ends (run env (p >>= f) w) (ok b) w'
  unfolding run
  test-completed true p x f w h = (refl, h)
  test-completed false p x f w h = absurd (not_returned x h.result)

  tested :
      {A : Type 0} (r : Result HttpResponse) (test : HttpResponse → Bool)
      (p : HttpResponse → Process A) (x : HttpResponse → Thrown) (f : A → Process B) (v : W)
      (o : Result HttpResponse × W)
      → o ≡ (r, v)
      → Ends (run env (continue r (λ a. if test a then p a else throws (x a)) >>= f) v) (ok b) w'
      → (a : HttpResponse) × (u : W) × (o ≡ (ok a, u))
        × (test a ≡ true)
        × Ends (run env (p a >>= f) u) (ok b) w'
  unfolding run
  tested (ok a) test p x f v o e h =
      let (good, rest) = test-completed (test a) (p a) (x a) f v h in (a, v, e, good, rest)
  tested (throw y) test p x f v o e h = absurd (not_returned y h.result)

  -- A request whose answer is tested.
  pub send-test-completed :
      {A : Type 0} (q : Request) (test : HttpResponse → Bool) (p : HttpResponse → Process A)
      (x : HttpResponse → Thrown) (f : A → Process B) (w : W)
      → Ends
          (run env (send q (λ r. continue r (λ a. if test a then p a else throws (x a)) >>= f)) w)
          (ok b)
          w'
      → (a : HttpResponse) × (u : W) × (env.http q w ≡ (ok a, u))
        × (test a ≡ true)
        × Ends (run env (p a >>= f) u) (ok b) w'
  unfolding run
  send-test-completed q test p x f w h =
      tested _ test p x f _ (env.http q w) refl (record { result = h.result; world = h.world })

  reads :
      {A : Type 0} (r : Result A) (h : Thrown → Thrown) (f : A → Process B) (v : W)
      → Ends (run env (recover r (λ e. throws (h e)) >>= f) v) (ok b) w'
      → (a : A) × (r ≡ ok a) × Ends (run env (f a) v) (ok b) w'
  unfolding run
  reads (ok a) h f v k = (a, refl, k)
  reads (throw e) h f v k = absurd (not_returned (h e) k.result)

  caught :
      {A : Type 0} (r : Result HttpResponse) (read : HttpResponse → Result A) (h : Thrown → Thrown)
      (f : A → Process B) (v : W) (o : Result HttpResponse × W)
      → o ≡ (r, v)
      → Ends
          (run env (try_catch (continue r (λ x. ended (read x))) (λ e. throws (h e)) >>= f) v)
          (ok b)
          w'
      → (x : HttpResponse) × (u : W) × (a : A) × (o ≡ (ok x, u))
        × (read x ≡ ok a)
        × Ends (run env (f a) u) (ok b) w'
  unfolding run
  caught (throw x) read h f v o e k = absurd (not_returned (h x) k.result)
  caught (ok x) read h f v o e k =
      let (a, same, rest) = reads (read x) h f v k in (x, v, a, e, same, rest)

  -- A request in a `try` whose `catch` throws.
  pub try-completed :
      {A : Type 0} (q : Request) (read : HttpResponse → Result A) (h : Thrown → Thrown)
      (f : A → Process B) (w : W)
      → Ends
          (run env
            (send q (λ r. try_catch (continue r (λ x. ended (read x))) (λ e. throws (h e)) >>= f))
            w)
          (ok b)
          w'
      → (x : HttpResponse) × (u : W) × (a : A) × (env.http q w ≡ (ok x, u))
        × (read x ≡ ok a)
        × Ends (run env (f a) u) (ok b) w'
  unfolding run
  try-completed q read h f w k =
      caught _ read h f _ (env.http q w) refl (record { result = k.result; world = k.world })
