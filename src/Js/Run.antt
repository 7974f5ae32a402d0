-- ===== src/Js/Run.antt =====
-- A process in an environment: everything that answers it, with the state `W` of it all (servers,
-- other clients, randomness, time).
use plissken.Base.{◌≡◌, List, [], ◌∷◌, Text}
use plissken.Js.Process.{
  HttpResponse, Request, Call, Result, Line, Process, ended, print, call, send,
}

-- What a run does, with the answers that it got.
pub data Event : Type 0 where
  printed : Line → Event
  called : Call → Result Text → Event
  sent : Request → Result HttpResponse → Event

pub record Env (W : Type 0) : Type 0 where
  pub http : Request → W → Result HttpResponse × W
  pub bindings : Call → W → Result Text × W

pub record Outcome (W A : Type 0) : Type 0 where
  pub result : Result A
  pub world : W
  pub events : List Event

-- How a run ends, whatever it did.
pub record Ends {W A : Type 0} (o : Outcome W A) (r : Result A) (w : W) : Type 0 where
  pub result : o.result ≡ r
  pub world : o.world ≡ w

module _ {W A : Type 0} where
  abbrev pub after : Event → Outcome W A → Outcome W A
  after e o = record o { events = e ∷ o.events }

  unfoldable pub run : Env W → Process A → W → Outcome W A
  run env (ended r) w = record { result = r; world = w; events = [] }
  run env (print l p) w = after (printed l) (run env p w)
  run env (call c k) w =
      after (called c (env.bindings c w).0) (run env (k (env.bindings c w).0) (env.bindings c w).1)
  run env (send q k) w =
      after (sent q (env.http q w).0) (run env (k (env.http q w).0) (env.http q w).1)

-- The requests of a run.
unfoldable pub requests : List Event → List Request
requests [] = []
requests (printed l ∷ es) = requests es
requests (called c r ∷ es) = requests es
requests (sent q r ∷ es) = q ∷ requests es
