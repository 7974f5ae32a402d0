-- ===== src/AuthServer/Index/Page.antt =====
-- The index page line by line.
use plissken.Base.{
  ◌≡◌, refl, sym, ap, ◌∙◌, some, true, false, List, [], ◌∷◌, ◌++◌, map, append_assoc, append-nil,
  Text, codes,
}
use plissken.Opaque.Go.{Go}
use plissken.Opaque.Primitives.{Primitives}
use plissken.Opaque.Server.{World, UserEnvelope}
use plissken.AuthServer.Redis.{Redis, Encodings}
use plissken.AuthServer.Listing.{get_all_app_tokens}
use plissken.AuthServer.Handlers.{text}
use plissken.AuthServer.Index.{
  Table, handle_index, AreListed, user_text, user_separator, app_separator, users_page, page,
  handle_index_lem,
}

-- Each line ends with a newline.
abbrev pub unlines : List Text → Text
unlines [] = []
unlines (l ∷ ls) = l ++ 10 ∷ unlines ls

unlines-append : (ls ms : List Text) → unlines (ls ++ ms) ≡ unlines ls ++ unlines ms
unlines-append [] ms = refl
unlines-append (l ∷ ls) ms = ap (λ t. l ++ 10 ∷ t) (unlines-append ls ms) ∙ simp append_assoc

module _ (c : Encodings) where
  -- The paragraph of a user.
  abbrev pub user_lines : (token username : Text) → UserEnvelope → List Text
  user_lines token username env =
      (codes "Data for username " ++ username ++ codes " | apptoken " ++ token)
      ∷ []
      ∷ (codes "- PubU: " ++ c.hex.encode env.user_pub_key)
      ∷ (codes "- EnvU: " ++ c.hex.encode env.envu)
      ∷ (codes "- EnvUNonce: " ++ c.hex.encode env.envu_nonce)
      ∷ (codes "- RwdUSalt: " ++ c.hex.encode env.user_key_salt)
      ∷ (codes "- OprfPrivKey: " ++ c.hex.encode env.oprf_priv_key)
      ∷ []

  -- A line of dashes stands between two users of an app.
  abbrev pub users_lines : Text → List (Text × UserEnvelope) → List Text
  users_lines token [] = []
  users_lines token ((u, env) ∷ []) = user_lines token u env
  users_lines token ((u, env) ∷ user ∷ users) =
      user_lines token u env
      ++ codes "---------------------------------------" ∷ users_lines token (user ∷ users)

  -- Two rules stand between two apps.
  abbrev pub index_lines : Table → List Text
  index_lines [] = []
  index_lines ((token, users) ∷ []) = users_lines token users
  index_lines ((token, users) ∷ app ∷ apps) =
      users_lines token users
      ++ codes "======================================================"
        ∷ codes "======================================================"
        ∷ index_lines (app ∷ apps)

  user_text-lines :
      (token u : Text) (env : UserEnvelope)
      → user_text c token u env ≡ unlines (user_lines token u env)
  unfolding user_text
  user_text-lines token u env = simp append_assoc

  users_page-lines :
      (token : Text) (users : List (Text × UserEnvelope))
      → users_page c token true users ≡ unlines (users_lines token users)
  users_page-lines token [] = refl
  users_page-lines token ((u, env) ∷ []) = append-nil _ ∙ user_text-lines token u env
  users_page-lines token ((u, env) ∷ (u', env') ∷ users) =
      let rest = users_lines token ((u', env') ∷ users) in
      let dashes = codes "---------------------------------------" in
      ap (λ t. user_text c token u env ++ (user_separator false ++ t))
        (users_page-lines token ((u', env') ∷ users))
      ∙ ap (λ t. t ++ unlines (dashes ∷ rest)) (user_text-lines token u env)
      ∙ sym (unlines-append (user_lines token u env) (dashes ∷ rest))

  page-lines : (apps : Table) → page c true apps ≡ unlines (index_lines apps)
  page-lines [] = refl
  page-lines ((token, users) ∷ []) = append-nil _ ∙ users_page-lines token users
  page-lines ((token, users) ∷ (token', users') ∷ apps) =
      let rest = index_lines ((token', users') ∷ apps) in
      let rule = codes "======================================================" in
      ap (λ t. users_page c token true users ++ (app_separator false ++ t))
        (page-lines ((token', users') ∷ apps))
      ∙ ap (λ t. t ++ unlines (rule ∷ rule ∷ rest)) (users_page-lines token users)
      ∙ sym (unlines-append (users_lines token users) (rule ∷ rule ∷ rest))

module _ {R D : Type 0} (p : Primitives R) (r : Redis D) (c : Encodings)
    (keys : Text → Go D (List Text)) where
  -- If the apps and the users of a table are listed, and each user's envelope is loaded, then the index
  -- has status 200, and nothing changes. Its lines are for each user a title, an empty line, and the
  -- public key, the envelope, its nonce, the salt and the private OPRF key in hex; with a line of
  -- dashes between two users of an app, and two rules between two apps.
  pub handle_index-page :
      (apps : Table) (w : World R D)
      → get_all_app_tokens keys w.store ≡ (some (map (λ t. t.0) apps), w.store)
      → AreListed p r c keys w.store apps
      → handle_index p r c keys w ≡ (text 200 (unlines (index_lines c apps)), w)
  handle_index-page apps w e h =
      handle_index_lem p r c keys apps w e h ∙ ap (λ t. (text 200 t, w)) (page-lines c apps)
