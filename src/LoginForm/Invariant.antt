-- ===== src/LoginForm/Invariant.antt =====
-- The invariant of the page, and how it bears the steps of a running handler.
use plissken.Base.{◌≡◌, Text, List, [], ◌∷◌, ◌++◌, ◌⊎◌}
use plissken.Js.Process.{Engine, Process, Result}
use plissken.Js.Run.{Event}
use plissken.Js.Ensures.{Ensures}
use plissken.Js.Within.{Within, Within-append}
use plissken.LoginForm.{Config, FormState, no_session_token}
use plissken.LoginForm.Page.{Moves, prints, asks, awaits, Running, Page}
use plissken.LoginForm.Changes.{Settles, Authenticates}

module _ (js : Engine) (cfg : Config) where
  -- The first token, or one that an authentication ended with: its requests and answers are all in
  -- the history.
  pub data IsGenuine (history : List Event) (token : Text) : Type 0 where
    first : token ≡ no_session_token → IsGenuine history token
    issued :
        (s : FormState) (es : List Event)
        → Authenticates js cfg s es token
        → Within es history
        → IsGenuine history token

  pub record IsOnCourse (history : List Event) (j : Running) : Type 0 where
    pub ensures : Ensures (Settles js cfg j.called_in) j.events j.rest
    pub within : Within j.events history

  abbrev pub AllOnCourse : List Event → List Running → Type 0
  AllOnCourse history [] = Unit
  AllOnCourse history (j ∷ js') = IsOnCourse history j × AllOnCourse history js'

  -- At most one message; a genuine token; and handlers that will keep it so.
  pub record IsSound (q : Page) : Type 0 where
    pub messages : (q.form.info_msg ≡ []) ⊎ (q.form.error_msg ≡ [])
    pub token : IsGenuine q.history q.form.session_token
    pub on_course : AllOnCourse q.history q.running

  pub IsGenuine-grow :
      (history : List Event) (e : Event) (token : Text)
      → IsGenuine history token
      → IsGenuine (history ++ e ∷ []) token
  IsGenuine-grow history e token (first h) = first h
  IsGenuine-grow history e token (issued s es a h) =
      issued s es a (Within-append es history (e ∷ []) h)

  pub IsOnCourse-grow :
      (history : List Event) (e : Event) (j : Running)
      → IsOnCourse history j
      → IsOnCourse (history ++ e ∷ []) j
  IsOnCourse-grow history e j h = record {
    ensures = h.ensures;
    within = Within-append j.events history (e ∷ []) h.within;
  }

  pub AllOnCourse-grow :
      (history : List Event) (e : Event) (l : List Running)
      → AllOnCourse history l
      → AllOnCourse (history ++ e ∷ []) l
  AllOnCourse-grow history e [] h = tt
  AllOnCourse-grow history e (j ∷ l) (h, hs) =
      (IsOnCourse-grow history e j h, AllOnCourse-grow history e l hs)

  module _ (history : List Event) (j : Running) where
    pub AllOnCourse-at :
        (before after : List Running)
        → AllOnCourse history (before ++ j ∷ after)
        → IsOnCourse history j
    AllOnCourse-at [] after (h, hs) = h
    AllOnCourse-at (i ∷ before) after (h, hs) = AllOnCourse-at before after hs

    pub AllOnCourse-without :
        (before after : List Running)
        → AllOnCourse history (before ++ j ∷ after)
        → AllOnCourse history (before ++ after)
    AllOnCourse-without [] after (h, hs) = hs
    AllOnCourse-without (i ∷ before) after (h, hs) = (h, AllOnCourse-without before after hs)

    pub AllOnCourse-replace :
        (i : Running) (before after : List Running)
        → IsOnCourse history i
        → AllOnCourse history (before ++ j ∷ after)
        → AllOnCourse history (before ++ i ∷ after)
    AllOnCourse-replace i [] after hi (h, hs) = (hi, hs)
    AllOnCourse-replace i (k ∷ before) after hi (h, hs) =
        (h, AllOnCourse-replace i before after hi hs)

  pub Ensures-Moves :
      {A : Type 0} (Q : List Event → Result A → Type 0) (es : List Event) {p p' : Process A}
      {e : Event}
      → Moves p e p'
      → Ensures Q es p
      → Ensures Q (es ++ e ∷ []) p'
  Ensures-Moves Q es (prints l p) h = h
  Ensures-Moves Q es (asks c k r) h = h r
  Ensures-Moves Q es (awaits q k r) h = h r
