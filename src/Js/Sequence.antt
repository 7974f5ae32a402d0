-- ===== src/Js/Sequence.antt =====
-- How runs of a sequence and of a `try` end, by how the runs of their parts end.
use plissken.Base.{◌≡◌, refl, sym, ap, List, [], ◌∷◌, ◌++◌, append_assoc, append-nil, ◌∙◌}
use plissken.Js.Process.{
  Thrown, Result, ok, throw, Process, ended, print, call, send, try_catch, ◌>>=◌,
}
use plissken.Js.Run.{Event, Env, run}
use plissken.Js.Ensures.{Ensures, Returns, weaken}

module _ {W : Type 0} (env : Env W) where
  abbrev pub next : {A B : Type 0} → (A → Process B) → Result A → W → Result B
  next f (ok a) w = (run env (f a) w).result
  next f (throw e) w = throw e

  pub result-bind :
      {A B : Type 0} (f : A → Process B) (p : Process A) (w : W)
      → (run env (p >>= f) w).result ≡ next f (run env p w).result (run env p w).world
  unfolding run
  result-bind f (ended (ok a)) w = refl
  result-bind f (ended (throw e)) w = refl
  result-bind f (print l p) w = result-bind f p w
  result-bind f (call c k) w = let (r, v) = env.bindings c w in result-bind f (k r) v
  result-bind f (send q k) w = let (r, v) = env.http q w in result-bind f (k r) v

  abbrev pub caught : {A : Type 0} → (Thrown → Process A) → Result A → W → Result A
  caught h (ok a) w = ok a
  caught h (throw e) w = (run env (h e) w).result

  pub result-try_catch :
      {A : Type 0} (h : Thrown → Process A) (p : Process A) (w : W)
      → (run env (try_catch p h) w).result ≡ caught h (run env p w).result (run env p w).world
  unfolding run
  result-try_catch h (ended (ok a)) w = refl
  result-try_catch h (ended (throw e)) w = refl
  result-try_catch h (print l p) w = result-try_catch h p w
  result-try_catch h (call c k) w = let (r, v) = env.bindings c w in result-try_catch h (k r) v
  result-try_catch h (send q k) w = let (r, v) = env.http q w in result-try_catch h (k r) v

-- What is ensured of the events of a process holds of those that it adds to others.
module _ {A : Type 0} (Q : List Event → Result A → Type 0) (before : List Event) where
  abbrev pub Adds : List Event → Result A → Type 0
  Adds t r = (es : List Event) × (t ≡ before ++ es) × Q es r

  shift :
      (es t : List Event) (e : Event) → t ≡ before ++ es → t ++ e ∷ [] ≡ before ++ (es ++ e ∷ [])
  shift es t e h = ap (λ x. x ++ e ∷ []) h ∙ append_assoc before es (e ∷ [])

  frame : (p : Process A) (es t : List Event) → t ≡ before ++ es → Ensures Q es p → Ensures Adds t p
  frame (ended r) es t h q = (es, h, q)
  frame (print l p) es t h q = frame p _ _ (shift es t _ h) q
  frame (call c k) es t h q = λ r. frame (k r) _ _ (shift es t _ h) (q r)
  frame (send c k) es t h q = λ r. frame (k r) _ _ (shift es t _ h) (q r)

  pub Ensures-Adds : (p : Process A) → Ensures Q [] p → Ensures Adds before p
  Ensures-Adds p q = frame p [] before (sym (append-nil before)) q

module _ {A : Type 0} (P : List Event → A → Type 0) (before : List Event) where
  abbrev pub AddsTo : List Event → A → Type 0
  AddsTo t a = (es : List Event) × (t ≡ before ++ es) × P es a

  unpack : (t : List Event) (r : Result A) → Adds (Returns P) before t r → Returns AddsTo t r
  unpack t (ok a) h = h
  unpack t (throw e) h = tt

  -- A process whose returns are known, after other events.
  pub Ensures-AddsTo :
      (p : Process A) → Ensures (Returns P) [] p → Ensures (Returns AddsTo) before p
  Ensures-AddsTo p q = weaken _ _ p before unpack (Ensures-Adds (Returns P) before p q)

-- Nothing is claimed of the runs.
pub Ensures-any :
    {A : Type 0} (Q : List Event → Result A → Type 0) (p : Process A) (es : List Event)
    → ((t : List Event) (r : Result A) → Q t r)
    → Ensures Q es p
Ensures-any Q (ended r) es h = h es r
Ensures-any Q (print l p) es h = Ensures-any Q p _ h
Ensures-any Q (call c k) es h = λ r. Ensures-any Q (k r) _ h
Ensures-any Q (send c k) es h = λ r. Ensures-any Q (k r) _ h
