-- ===== src/LoginForm/View.antt =====
-- `render`: the elements that show or change something, in document order. Layout and CSS classes
-- are left out.
use plissken.Base.{Text, codes, List, [], ◌∷◌, ◌++◌}
use plissken.LoginForm.{FormState}

pub data Button : Type 0 where
  register login put_resource get_resource : Button

-- `onChange` and `onClick`.
pub data Action : Type 0 where
  type_username type_password : Action
  click : Button → Action

pub data Element : Type 0 where
  label : Text → Element
  input : (kind id placeholder value : Text) → Action → Element
  small : Text → Element
  button : Text → Action → Element
  h3 : Text → Element

-- `{m && <div><h3> {m} </h3></div>}`: nothing for the empty text.
unfoldable pub message : Text → List Element
message [] = []
message (c ∷ m) = h3 (codes " " ++ ((c ∷ m) ++ codes " ")) ∷ []

abbrev fields_of : FormState → List Element
fields_of s =
    label (codes "Username")
    ∷ input (codes "username") (codes "input-username") (codes "Enter Username") s.username
        type_username
    ∷ small (codes "We'll never share your username with anyone else.")
    ∷ label (codes "Password")
    ∷ input (codes "password") (codes "input-password") (codes "Password") s.password type_password
    ∷ []

abbrev buttons : List Element
buttons =
    button (codes "Register") (click register)
    ∷ button (codes "Login") (click login)
    ∷ button (codes "Put private resource") (click put_resource)
    ∷ button (codes "Get private resource") (click get_resource)
    ∷ []

abbrev labels_of : FormState → List Element
labels_of s = label (codes "session-token:") ∷ label s.session_token ∷ []

unfoldable pub render : FormState → List Element
unfolding message
render s = fields_of s ++ (buttons ++ (labels_of s ++ (message s.info_msg ++ message s.error_msg)))
