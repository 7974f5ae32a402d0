-- ===== src/LoginForm/Shown.antt =====
-- What the page shows of its state.
use plissken.Base.{
  ℕ, ◌+◌, ◌≤◌, ◌≡◌, refl, Text, text_eq, codes, List, [], ◌∷◌, ◌++◌, ◌⊎◌, inl, inr, arith,
  if◌then◌else◌,
}
use plissken.Js.Process.{Engine}
use plissken.LoginForm.{Config, FormState}
use plissken.LoginForm.View.{Element, label, input, small, button, h3, message, render}
use plissken.LoginForm.Page.{Page, Reach}
use plissken.LoginForm.Reachable.{Reach-IsSound}

-- The headings, which are messages.
unfoldable pub count_h3 : List Element → ℕ
count_h3 [] = 0
count_h3 (h3 m ∷ l) = 1 + count_h3 l
count_h3 (label m ∷ l) = count_h3 l
count_h3 (small m ∷ l) = count_h3 l
count_h3 (input kind id placeholder value a ∷ l) = count_h3 l
count_h3 (button m a ∷ l) = count_h3 l

-- What can be read on the screen: not what stands in an input of the kind `password`.
unfoldable pub readable : List Element → List Text
readable [] = []
readable (h3 m ∷ l) = m ∷ readable l
readable (label m ∷ l) = m ∷ readable l
readable (small m ∷ l) = m ∷ readable l
readable (input kind id placeholder value a ∷ l) =
    let rest = readable l in if text_eq kind (codes "password") then rest else value ∷ rest
readable (button m a ∷ l) = m ∷ readable l

-- What can be read of the form does not depend on the password.
pub readable-render :
    (s : FormState) (other : Text)
    → readable (render (record s { password = other })) ≡ readable (render s)
unfolding readable render text_eq
readable-render s other = refl

messages : (info error : Text) → List Element
messages info error = message info ++ message error

count_h3-messages :
    (info error : Text) → (info ≡ []) ⊎ (error ≡ []) → count_h3 (messages info error) ≤ 1
unfolding count_h3 messages message
count_h3-messages [] [] h = omega arith
count_h3-messages [] (c ∷ m) h = omega arith
count_h3-messages (c ∷ m) [] h = omega arith
count_h3-messages (c ∷ m) (d ∷ n) (inl e) = cc
count_h3-messages (c ∷ m) (d ∷ n) (inr e) = cc

-- A page that can be reached shows at most one message.
pub count_h3-Reach :
    (js : Engine) (cfg : Config) (q : Page) → Reach js cfg q → count_h3 (render q.form) ≤ 1
unfolding count_h3 render messages
count_h3-Reach js cfg q r =
    count_h3-messages q.form.info_msg q.form.error_msg (Reach-IsSound js cfg r).messages
