-- ===== src/AuthServer/Index.antt =====
-- The routes of GET for people, and the middleware, of auth-server/server/handlers.go.
pub mod Page
use plissken.Base.{
  ◌≡◌, ap, ◌∙◌, none, some, Bool, true, false, List, [], ◌∷◌, ◌++◌, map, append_assoc, append-nil,
  Text, codes,
}
use plissken.Opaque.Go.{Go}
use plissken.Opaque.Primitives.{Primitives}
use plissken.Opaque.Server.{World, UserEnvelope, of_store}
use plissken.AuthServer.Redis.{Redis, Encodings}
use plissken.AuthServer.RedisWrapper.{load_user_envelope}
use plissken.AuthServer.Listing.{get_all_app_tokens, get_all_usernames_from_envelopes}
use plissken.AuthServer.Handlers.{Reply, text, abort, reply, try}

abbrev newline : Text
newline = 10 ∷ []

-- `handleHealthRoute`.
unfoldable pub handle_health_route : {E : Type 0} → (git_commit_hash sdk_version : Text) → Reply E
handle_health_route git_commit_hash sdk_version =
    text 200 (git_commit_hash ++ codes ":" ++ sdk_version)

abbrev line : (label value : Text) → Text
line label value = codes "- " ++ (label ++ (codes ": " ++ (value ++ newline)))

unfoldable pub user_text : Encodings → (token username : Text) → UserEnvelope → Text
user_text c token username env =
    codes "Data for username "
    ++ (username
        ++ (codes " | apptoken "
            ++ (token
                ++ (newline
                    ++ (newline
                        ++ (line (codes "PubU") (c.hex.encode env.user_pub_key)
                            ++ (line (codes "EnvU") (c.hex.encode env.envu)
                                ++ (line (codes "EnvUNonce") (c.hex.encode env.envu_nonce)
                                    ++ (line (codes "RwdUSalt") (c.hex.encode env.user_key_salt)
                                        ++ line (codes "OprfPrivKey")
                                            (c.hex.encode env.oprf_priv_key))))))))))

abbrev rule : Text
rule = codes "======================================================" ++ newline

abbrev pub app_separator : Bool → Text
app_separator true = []
app_separator false = rule ++ rule

abbrev pub user_separator : Bool → Text
user_separator true = []
user_separator false = codes "---------------------------------------" ++ newline

-- What a database holds: for each app the users with their envelopes.
abbrev pub Table : Type 0
Table = List (Text × List (Text × UserEnvelope))

module _ (c : Encodings) where
  abbrev pub users_page : Text → Bool → List (Text × UserEnvelope) → Text
  users_page token first [] = []
  users_page token first ((u, env) ∷ users) =
      user_separator first ++ (user_text c token u env ++ users_page token false users)

  -- What the loops write of a table.
  abbrev pub page : Bool → Table → Text
  page first [] = []
  page first ((token, users) ∷ apps) =
      app_separator first ++ (users_page token true users ++ page false apps)

module _ {R D : Type 0} (p : Primitives R) (r : Redis D) (c : Encodings)
    (keys : Text → Go D (List Text)) where
  -- The loop over the users of an app. `first` tells whether it is the first turn, and `sb` is what
  -- has been written.
  unfoldable pub write_users :
      (token : Text) (first : Bool)
      → List Text
      → (sb : Text) → (Text → World R D → Reply p.Element × World R D)
      → World R D
      → Reply p.Element × World R D
  write_users token first [] sb k = k sb
  write_users token first (username ∷ usernames) sb k =
      try (of_store (load_user_envelope r c token username))
        (abort 500 (some (codes "while checking fetching user envelopes")))
        λ env.
          write_users token false usernames
            (sb ++ (user_separator first ++ user_text c token username env)) k

  -- The loop over the apps.
  unfoldable pub write_apps :
      (first : Bool) → List Text → (sb : Text) → World R D → Reply p.Element × World R D
  write_apps first [] sb = reply (text 200 sb)
  write_apps first (token ∷ tokens) sb =
      try (of_store (get_all_usernames_from_envelopes keys token))
        (abort 500 (some (codes "while fetching usernames for app token " ++ token)))
        λ usernames.
          write_users token true usernames (sb ++ app_separator first)
            λ sb. write_apps false tokens sb

  unfoldable pub handle_index : World R D → Reply p.Element × World R D
  handle_index =
      try (of_store (get_all_app_tokens keys))
        (abort 500 (some (codes "while fetching app tokens"))) λ tokens. write_apps true tokens []

  abbrev pub AreLoaded : D → Text → List (Text × UserEnvelope) → Type 0
  AreLoaded d token [] = Unit {0}
  AreLoaded d token ((u, env) ∷ users) =
      (load_user_envelope r c token u d ≡ (some env, d)) × AreLoaded d token users

  abbrev pub AreListed : D → Table → Type 0
  AreListed d [] = Unit {0}
  AreListed d ((token, users) ∷ apps) =
      (get_all_usernames_from_envelopes keys token d ≡ (some (map (λ u. u.0) users), d))
      × (AreLoaded d token users × AreListed d apps)

  write_users_lem :
      (token : Text) (first : Bool) (users : List (Text × UserEnvelope)) (sb : Text)
      (k : Text → World R D → Reply p.Element × World R D) (w : World R D)
      → AreLoaded w.store token users
      → write_users token first (map (λ u. u.0) users) sb k w
        ≡ k (sb ++ users_page c token first users) w
  unfolding write_users
  write_users_lem token first [] sb k w h = rw (append-nil sb)
  write_users_lem token first ((u, env) ∷ users) sb k w h =
      let t = user_separator first ++ user_text c token u env in
      rw (h.0) (
        write_users_lem token false users (sb ++ t) k w h.1
        ∙ ap (λ x. k x w)
            (append_assoc sb t (users_page c token false users)
              ∙ ap (λ x. sb ++ x)
                  (append_assoc (user_separator first) (user_text c token u env)
                    (users_page c token false users))))

  missing_lem :
      (token : Text) (first : Bool) (users : List (Text × UserEnvelope)) (username : Text)
      (more : List Text) (sb : Text) (k : Text → World R D → Reply p.Element × World R D)
      (w : World R D)
      → AreLoaded w.store token users
      → load_user_envelope r c token username w.store ≡ (none, w.store)
      → write_users token first (map (λ u. u.0) users ++ username ∷ more) sb k w
        ≡ (abort 500 (some (codes "while checking fetching user envelopes")), w)
  unfolding write_users
  missing_lem token first [] username more sb k w h e = rw e
  missing_lem token first ((u, env) ∷ users) username more sb k w h e = rw (h.0) (
      missing_lem token false users username more
        (sb ++ (user_separator first ++ user_text c token u env)) k w h.1 e)

  write_apps_lem :
      (first : Bool) (apps : Table) (sb : Text) (w : World R D)
      → AreListed w.store apps
      → write_apps first (map (λ t. t.0) apps) sb w ≡ (text 200 (sb ++ page c first apps), w)
  unfolding write_apps
  write_apps_lem first [] sb w h = rw (append-nil sb)
  write_apps_lem first ((token, users) ∷ apps) sb w h =
      let s = sb ++ app_separator first in
      let q = users_page c token true users in
      rw (h.0) (
        write_users_lem token true users s (λ sb. write_apps false (map (λ t. t.0) apps) sb) w h.1.0
        ∙ write_apps_lem false apps (s ++ q) w h.1.1
        ∙ ap (λ x. (text 200 x, w))
            (append_assoc s q (page c false apps)
              ∙ append_assoc sb (app_separator first) (q ++ page c false apps)))

  pub handle_index_lem :
      (apps : Table) (w : World R D)
      → get_all_app_tokens keys w.store ≡ (some (map (λ t. t.0) apps), w.store)
      → AreListed w.store apps
      → handle_index w ≡ (text 200 (page c true apps), w)
  unfolding handle_index
  handle_index_lem apps w e h = rw e (write_apps_lem true apps [] w h)

  -- The index has status 500, and shows nothing, as soon as one user of the first app is listed whose
  -- envelope is not loaded, after users whose envelopes are.
  pub handle_index-missing :
      (token username : Text) (tokens more : List Text) (users : List (Text × UserEnvelope))
      (w : World R D)
      → get_all_app_tokens keys w.store ≡ (some (token ∷ tokens), w.store)
      → get_all_usernames_from_envelopes keys token w.store
        ≡ (some (map (λ u. u.0) users ++ username ∷ more), w.store)
      → AreLoaded w.store token users
      → load_user_envelope r c token username w.store ≡ (none, w.store)
      → handle_index w ≡ (abort 500 (some (codes "while checking fetching user envelopes")), w)
  unfolding handle_index write_apps
  handle_index-missing token username tokens more users w e e' h missing =
      rw (e, e') (missing_lem token true users username more [] _ w h missing)
