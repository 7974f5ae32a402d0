-- ===== src/LoginForm/Reachable.antt =====
-- What holds of every page that can be reached: of its messages, its session token, and the handlers
-- that are running.
use plissken.Base.{◌≡◌, refl, subst, List, [], ◌∷◌, ◌++◌, ◌⊎◌, inl, inr}
use plissken.Js.Process.{Engine, Process, done}
use plissken.Js.Run.{Event}
use plissken.Js.Ensures.{Ensures}
use plissken.Js.Within.{Within, Within-grow}
use plissken.LoginForm.{Config, FormState, Update, initial_state, show_info, show_error}
use plissken.LoginForm.Handlers.{logged_in}
use plissken.LoginForm.Page.{
  Moves, Running, Page, click, Step, typed_username, typed_password, clicked, moved, finished,
  rejected, Reach, loaded, next,
}
use plissken.LoginForm.Changes.{Changes, informs, reports, logs_in, Settles, handler-Settles}
use plissken.LoginForm.Invariant.{
  IsGenuine, first, issued, IsOnCourse, AllOnCourse, IsSound, IsGenuine-grow, AllOnCourse-grow,
  AllOnCourse-at, AllOnCourse-without, AllOnCourse-replace, Ensures-Moves,
}

module _ (js : Engine) (cfg : Config) where
  -- What a change that a handler ends with leaves of the form.
  abbrev IsGood : List Event → FormState → Type 0
  IsGood history f =
      ((f.info_msg ≡ []) ⊎ (f.error_msg ≡ [])) × IsGenuine js cfg history f.session_token

  Changes-IsGood :
      (history es : List Event) (s f : FormState) (u : Update)
      → Changes js cfg s es u
      → Within es history
      → IsGenuine js cfg history f.session_token
      → IsGood history (u f)
  unfolding show_info show_error logged_in
  Changes-IsGood history es s f u (informs m e) w g = rw e (inr refl, g)
  Changes-IsGood history es s f u (reports m e) w g = rw e (inl refl, g)
  Changes-IsGood history es s f u (logs_in token a e) w g = rw e (inr refl, issued s es a w)

  module _ (q : Page) (before after : List Running) (j : Running) where
    abbrev At : Type 0
    At = q.running ≡ before ++ j ∷ after

    here : At → IsSound js cfg q → AllOnCourse js cfg q.history (before ++ j ∷ after)
    here e h = subst (AllOnCourse js cfg q.history) e h.on_course

    settled : At → IsSound js cfg q → IsOnCourse js cfg q.history j
    settled e h = AllOnCourse-at js cfg q.history j before after (here e h)

    moved-IsSound :
        (e : Event) (rest : Process Update)
        → At
        → Moves j.rest e rest
        → IsSound js cfg q
        → IsSound js cfg (record q {
          running = before ++ record j { events = j.events ++ e ∷ []; rest = rest } ∷ after;
          history = q.history ++ e ∷ [];
        })
    moved-IsSound e rest at m h = record {
      messages = h.messages;
      token = IsGenuine-grow js cfg q.history e _ h.token;
      on_course =
          AllOnCourse-replace js cfg _ j _ before after
            (record {
              ensures = Ensures-Moves js cfg _ j.events m (settled at h).ensures;
              within = Within-grow j.events q.history e (settled at h).within;
            })
            (AllOnCourse-grow js cfg q.history e _ (here at h));
    }

    finished-IsSound :
        (change : Update)
        → At
        → j.rest ≡ done change
        → IsSound js cfg q
        → IsSound js cfg (record q { form = change q.form; running = before ++ after })
    finished-IsSound change at e h =
        let good =
          Changes-IsGood q.history j.events j.called_in q.form change
            (subst (Ensures (Settles js cfg j.called_in) j.events) e (settled at h).ensures)
            (settled at h).within h.token in
        record {
          messages = good.0;
          token = good.1;
          on_course = AllOnCourse-without js cfg q.history j before after (here at h);
        }

    -- A handler that rejects leaves the form as it is.
    rejected-IsSound :
        At → IsSound js cfg q → IsSound js cfg (record q { running = before ++ after })
    rejected-IsSound at h = record {
      messages = h.messages;
      token = h.token;
      on_course = AllOnCourse-without js cfg q.history j before after (here at h);
    }

  Step-IsSound : {q r : Page} → Step js cfg q r → IsSound js cfg q → IsSound js cfg r
  unfolding click
  Step-IsSound (typed_username q v) h = record {
    messages = h.messages;
    token = h.token;
    on_course = h.on_course;
  }
  Step-IsSound (typed_password q v) h = record {
    messages = h.messages;
    token = h.token;
    on_course = h.on_course;
  }
  Step-IsSound (clicked q k) h = record {
    messages = h.messages;
    token = h.token;
    on_course = (record { ensures = handler-Settles js cfg k q.form; within = tt }, h.on_course);
  }
  Step-IsSound (moved q before after j e rest at m) h = moved-IsSound q before after j e rest at m h
  Step-IsSound (finished q before after j change at e) h =
      finished-IsSound q before after j change at e h
  Step-IsSound (rejected q before after j x at e) h = rejected-IsSound q before after j at h

  -- On every page that can be reached, whatever the servers and the bindings answer and in whatever
  -- order the handlers move: at most one of the two messages is shown; the session token is the
  -- first one or one that an authentication ended with, whose requests and answers have all
  -- happened; and every handler that runs ends with a change of the state, or it rejects and changes
  -- nothing, with no other error than the `TypeError` of a value that has no text.
  pub Reach-IsSound : {q : Page} → Reach js cfg q → IsSound js cfg q
  unfolding initial_state
  Reach-IsSound loaded = record { messages = inl refl; token = first refl; on_course = tt }
  Reach-IsSound (next r s) = Step-IsSound s (Reach-IsSound r)
