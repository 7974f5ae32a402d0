-- ===== src/LoginForm/Page.antt =====
-- The life of the page: typing, clicking, and the steps of the handlers that have been called and
-- have not ended, in any order. Each step of a handler may get any answer, so a claim about every
-- page that can be reached holds whatever servers, bindings and clock do. A browser runs the steps
-- of a handler between two requests without a pause; here others may come between them.
use plissken.Base.{◌≡◌, Text, List, [], ◌∷◌, ◌++◌}
use plissken.Js.Process.{
  Engine, Result, HttpResponse, Thrown, Line, Request, Call, Process, print, call, send, done,
  throws,
}
use plissken.Js.Run.{Event, printed, called, sent}
use plissken.LoginForm.{Config, FormState, Update, initial_state}
use plissken.LoginForm.Handlers.{
  handle_login, handle_register, handle_put_resource, handle_get_resource,
}
use plissken.LoginForm.View.{Button, register, login, put_resource, get_resource}

-- One step of a process, with an answer if it asks.
pub data Moves {A : Type 0} : Process A → Event → Process A → Type 0 where
  prints : (l : Line) (p : Process A) → Moves (print l p) (printed l) p
  asks :
      (c : Call) (k : Result Text → Process A) (r : Result Text)
      → Moves (call c k) (called c r) (k r)
  awaits :
      (q : Request) (k : Result HttpResponse → Process A) (r : Result HttpResponse)
      → Moves (send q k) (sent q r) (k r)

-- A handler that has been called: the state that it was called in, what it has done, and what is
-- left of it.
pub record Running : Type 0 where
  pub called_in : FormState
  pub events : List Event
  pub rest : Process Update

pub record Page : Type 0 where
  pub form : FormState
  pub running : List Running
  pub history : List Event

module _ (js : Engine) (cfg : Config) where
  -- `onClick`.
  unfoldable pub handler : Button → FormState → Process Update
  handler login s = handle_login js cfg s
  handler register s = handle_register js cfg s
  handler put_resource s = handle_put_resource js cfg s
  handler get_resource s = handle_get_resource js cfg s

  unfoldable pub click : Button → Page → Page
  click k q = record q {
    running = record { called_in = q.form; events = []; rest = handler k q.form } ∷ q.running;
  }

  pub data Step : Page → Page → Type 0 where
    typed_username :
        (q : Page) (v : Text) → Step q (record q { form = record q.form { username = v } })
    typed_password :
        (q : Page) (v : Text) → Step q (record q { form = record q.form { password = v } })
    clicked : (q : Page) (k : Button) → Step q (click k q)
    moved :
        (q : Page) (before after : List Running) (j : Running) (e : Event) (rest : Process Update)
        → q.running ≡ before ++ j ∷ after
        → Moves j.rest e rest
        → Step q (record q {
          running = before ++ record j { events = j.events ++ e ∷ []; rest = rest } ∷ after;
          history = q.history ++ e ∷ [];
        })
    finished :
        (q : Page) (before after : List Running) (j : Running) (change : Update)
        → q.running ≡ before ++ j ∷ after
        → j.rest ≡ done change
        → Step q (record q { form = change q.form; running = before ++ after })
    -- A rejection that nobody handles.
    rejected :
        (q : Page) (before after : List Running) (j : Running) (e : Thrown)
        → q.running ≡ before ++ j ∷ after
        → j.rest ≡ throws e
        → Step q (record q { running = before ++ after })

  pub data Reach : Page → Type 0 where
    loaded : Reach (record { form = initial_state; running = []; history = [] })
    next : {q r : Page} → Reach q → Step q r → Reach r
