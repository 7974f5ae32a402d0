-- ===== src/Js/Ensures.antt =====
-- What a process ensures, whatever answers it: `Ensures Q es p` says that `Q` holds of the events
-- and the result of every run of `p`, where `es` are the events before it.
use plissken.Base.{
  ◌≡◌, refl, subst, List, [], ◌∷◌, ◌++◌, append_assoc, append-nil, Bool, true, false, Text,
  if◌then◌else◌,
}
use plissken.Js.Process.{
  HttpResponse, Request, Call, Thrown, Result, ok, throw, Process, ended, print, call, send,
  continue, recover, try_catch, ◌>>=◌,
}
use plissken.Js.Run.{Event, printed, called, sent, Env, run}

module _ {A : Type 0} where
  abbrev pub Ensures : (List Event → Result A → Type 0) → List Event → Process A → Type 0
  Ensures Q es (ended r) = Q es r
  Ensures Q es (print l p) = Ensures Q (es ++ printed l ∷ []) p
  Ensures Q es (call c k) = (r : Result Text) → Ensures Q (es ++ called c r ∷ []) (k r)
  Ensures Q es (send q k) = (r : Result HttpResponse) → Ensures Q (es ++ sent q r ∷ []) (k r)

  -- A condition on the runs that return, and one on those that throw.
  abbrev pub Returns : (List Event → A → Type 0) → List Event → Result A → Type 0
  Returns P es (ok a) = P es a
  Returns P es (throw e) = Unit

  run_from :
      {W : Type 0} (Q : List Event → Result A → Type 0) (env : Env W) (p : Process A)
      (es : List Event) (w : W)
      → Ensures Q es p
      → Q (es ++ (run env p w).events) (run env p w).result
  unfolding run
  run_from Q env (ended r) es w h = rw append-nil h
  run_from Q env (print l p) es w h =
      subst (λ t. Q t (run env p w).result) (append_assoc es (printed l ∷ []) _)
        (run_from Q env p (es ++ printed l ∷ []) w h)
  run_from Q env (call c k) es w h =
      let (r, v) = env.bindings c w in
      subst (λ t. Q t (run env (k r) v).result) (append_assoc es (called c r ∷ []) _)
        (run_from Q env (k r) (es ++ called c r ∷ []) v (h r))
  run_from Q env (send q k) es w h =
      let (r, v) = env.http q w in
      subst (λ t. Q t (run env (k r) v).result) (append_assoc es (sent q r ∷ []) _)
        (run_from Q env (k r) (es ++ sent q r ∷ []) v (h r))

  -- In every environment the run is as ensured.
  pub Ensures-run :
      {W : Type 0} (Q : List Event → Result A → Type 0) (env : Env W) (p : Process A) (w : W)
      → Ensures Q [] p
      → Q (run env p w).events (run env p w).result
  Ensures-run Q env p w h = run_from Q env p [] w h

  -- The same for a run that returned `a`.
  pub returned :
      {W : Type 0} (P : List Event → A → Type 0) (env : Env W) (p : Process A) (w : W) (a : A)
      → Ensures (Returns P) [] p
      → (run env p w).result ≡ ok a
      → P (run env p w).events a
  returned P env p w a h e =
      subst (Returns P (run env p w).events) e (Ensures-run (Returns P) env p w h)

  -- Weakening.
  pub weaken :
      (Q R : List Event → Result A → Type 0) (p : Process A) (es : List Event)
      → ((t : List Event) (r : Result A) → Q t r → R t r)
      → Ensures Q es p
      → Ensures R es p
  weaken Q R (ended r) es h q = h es r q
  weaken Q R (print l p) es h q = weaken Q R p _ h q
  weaken Q R (call c k) es h q = λ r. weaken Q R (k r) _ h (q r)
  weaken Q R (send c k) es h q = λ r. weaken Q R (k r) _ h (q r)

  -- Every result of a handler, and every result that it does not see.
  abbrev pub Handles :
      (List Event → Result A → Type 0) → (Thrown → Process A) → List Event → Result A → Type 0
  Handles Q h es (ok a) = Q es (ok a)
  Handles Q h es (throw e) = Ensures Q es (h e)

  handled :
      (Q : List Event → Result A → Type 0) (h : Thrown → Process A) (es : List Event) (r : Result A)
      → Handles Q h es r
      → Ensures Q es (recover r h)
  handled Q h es (ok a) q = q
  handled Q h es (throw e) q = q

  pub Ensures-try_catch :
      (Q : List Event → Result A → Type 0) (h : Thrown → Process A) (p : Process A)
      (es : List Event)
      → Ensures (Handles Q h) es p
      → Ensures Q es (try_catch p h)
  Ensures-try_catch Q h (ended r) es q = handled Q h es r q
  Ensures-try_catch Q h (print l p) es q = Ensures-try_catch Q h p _ q
  Ensures-try_catch Q h (call c k) es q = λ r. Ensures-try_catch Q h (k r) _ (q r)
  Ensures-try_catch Q h (send c k) es q = λ r. Ensures-try_catch Q h (k r) _ (q r)

module _ {A B : Type 0} where
  abbrev pub Continues :
      (List Event → Result B → Type 0) → (A → Process B) → List Event → Result A → Type 0
  Continues Q f es (ok a) = Ensures Q es (f a)
  Continues Q f es (throw e) = Q es (throw e)

  continued :
      (Q : List Event → Result B → Type 0) (f : A → Process B) (es : List Event) (r : Result A)
      → Continues Q f es r
      → Ensures Q es (continue r f)
  continued Q f es (ok a) q = q
  continued Q f es (throw e) q = q

  -- The rule for a sequence.
  pub Ensures-bind :
      (Q : List Event → Result B → Type 0) (f : A → Process B) (p : Process A) (es : List Event)
      → Ensures (Continues Q f) es p
      → Ensures Q es (p >>= f)
  Ensures-bind Q f (ended r) es q = continued Q f es r q
  Ensures-bind Q f (print l p) es q = Ensures-bind Q f p _ q
  Ensures-bind Q f (call c k) es q = λ r. Ensures-bind Q f (k r) _ (q r)
  Ensures-bind Q f (send c k) es q = λ r. Ensures-bind Q f (k r) _ (q r)

  Returns-next :
      (P : List Event → A → Type 0) (R : List Event → B → Type 0) (f : A → Process B)
      → ((t : List Event) (a : A) → P t a → Ensures (Returns R) t (f a))
      → (t : List Event) (r : Result A) → Returns P t r
      → Continues (Returns R) f t r
  Returns-next P R f h t (ok a) q = h t a q
  Returns-next P R f h t (throw e) q = tt

  -- A call of a function whose returns are known.
  pub then-Returns :
      (P : List Event → A → Type 0) (R : List Event → B → Type 0) (f : A → Process B)
      (p : Process A) (es : List Event)
      → Ensures (Returns P) es p
      → ((t : List Event) (a : A) → P t a → Ensures (Returns R) t (f a))
      → Ensures (Returns R) es (p >>= f)
  then-Returns P R f p es q h =
      Ensures-bind (Returns R) f p es
        (weaken (Returns P) (Continues (Returns R) f) p es (Returns-next P R f h) q)

  -- A pure step, or an answer: if it throws, nothing is to show.
  pub on_ok :
      (R : List Event → B → Type 0) (es : List Event) (r : Result A) (f : A → Process B)
      → ((a : A) → r ≡ ok a → Ensures (Returns R) es (f a))
      → Ensures (Returns R) es (continue r f)
  on_ok R es (ok a) f h = h a refl
  on_ok R es (throw e) f h = tt

module _ {A : Type 0} where
  pub on_test :
      (Q : List Event → Result A → Type 0) (es : List Event) (test : Bool) (x y : Process A)
      → (test ≡ true → Ensures Q es x)
      → (test ≡ false → Ensures Q es y)
      → Ensures Q es (if test then x else y)
  on_test Q es true x y h k = h refl
  on_test Q es false x y h k = k refl

module _ {A : Type 0} (R : List Event → A → Type 0) (es : List Event) where
  -- A question: if the answer is an error, nothing is to show.
  pub on_call :
      (c : Call) (f : Text → Process A)
      → ((a : Text) → Ensures (Returns R) (es ++ called c (ok a) ∷ []) (f a))
      → (r : Result Text) → Ensures (Returns R) (es ++ called c r ∷ []) (continue r f)
  on_call c f h (ok a) = h a
  on_call c f h (throw e) = tt

  pub on_send :
      (q : Request) (f : HttpResponse → Process A)
      → ((a : HttpResponse) → Ensures (Returns R) (es ++ sent q (ok a) ∷ []) (f a))
      → (r : Result HttpResponse) → Ensures (Returns R) (es ++ sent q r ∷ []) (continue r f)
  on_send q f h (ok a) = h a
  on_send q f h (throw e) = tt
