-- ===== src/AuthServer/Listing.antt =====
-- The names that auth-server/rediswrapper/rediswrapper.go reads out of keys, for the index page.
use plissken.Base.{
  ℕ, zero, suc, ◌≡◌, refl, Option, none, some, Bool-cases, inl, inr, List, [], ◌∷◌, ◌++◌,
  append_assoc, map, Text, codes, ◌==◌, ==_iff, if◌then◌else◌,
}
use plissken.Opaque.Go.{Go, lift, ◌>>=◌}
use plissken.Common.Messages.{each}
use plissken.AuthServer.RedisWrapper.{app_secret_key, user_envelope_key}
use plissken.AuthServer.Keys.{HasNoColon}

abbrev put_first : ℕ → List Text → List Text
put_first c [] = (c ∷ []) ∷ []
put_first c (t ∷ l) = (c ∷ t) ∷ l

-- `strings.Split(key, ":")`.
abbrev pub split : Text → List Text
split [] = [] ∷ []
split (c ∷ t) = let l = split t in if c == 58 then [] ∷ l else put_first c l

-- `arr[n]`, where `none` is the panic of an index that is out of range.
abbrev pub nth : ℕ → List Text → Option Text
nth n [] = none
nth zero (t ∷ l) = some t
nth (suc n) (t ∷ l) = nth n l

-- `keys` is the command with a pattern.
module _ {D : Type 0} (keys : Text → Go D (List Text)) where
  unfoldable pub get_all_app_tokens : Go D (List Text)
  get_all_app_tokens = do
    found ← keys (app_secret_key (codes "*"))
    lift (each (λ key. nth 1 (split key)) found)

  unfoldable pub get_all_usernames_from_envelopes : Text → Go D (List Text)
  get_all_usernames_from_envelopes apptoken = do
    found ← keys (user_envelope_key apptoken (codes "*"))
    lift (each (λ key. nth 2 (split key)) found)

split-append : (a x : Text) → HasNoColon a → split (a ++ (58 ∷ x)) ≡ a ∷ split x
split-append [] x h = refl
split-append (c ∷ a) x h = elim (Bool-cases (c == 58)) [
  | inl colon ↦ absurd (h.0 ((==_iff c 58).0 colon))
  | inr other ↦ rw (other, split-append a x h.1)
]

-- A text up to its first colon.
abbrev pub before_colon : Text → Text
before_colon [] = []
before_colon (c ∷ t) = let b = before_colon t in if c == 58 then [] else c ∷ b

put_first_lem :
    (c : ℕ) (l : List Text) (t : Text) → nth 0 l ≡ some t → nth 0 (put_first c l) ≡ some (c ∷ t)
put_first_lem c [] t e = cc
put_first_lem c (x ∷ l) t e = cc

first_lem : (u x : Text) → nth 0 (split (u ++ (58 ∷ x))) ≡ some (before_colon u)
first_lem [] x = refl
first_lem (c ∷ u) x = elim (Bool-cases (c == 58)) [
  | inl colon ↦ rw colon
  | inr other ↦ rw other (put_first_lem c (split (u ++ (58 ∷ x))) (before_colon u) (first_lem u x))
]

each-map :
    (f : Text → Option Text) (key cut : Text → Text)
    → ((t : Text) → f (key t) ≡ some (cut t))
    → (l : List Text) → each f (map key l) ≡ some (map cut l)
unfolding each
each-map f key cut h [] = refl
each-map f key cut h (t ∷ l) = rw (h t, each-map f key cut h l)

app_token_lem : (a : Text) → nth 1 (split (app_secret_key a)) ≡ some (before_colon a)
unfolding app_secret_key
app_token_lem a = first_lem a (codes "secret")

second_lem :
    (a u x : Text)
    → HasNoColon a
    → nth 1 (split (a ++ (58 ∷ (u ++ (58 ∷ x))))) ≡ some (before_colon u)
second_lem a u x h = rw (split-append a (u ++ (58 ∷ x)) h) (first_lem u x)

envelope_key_lem :
    (a u : Text)
    → user_envelope_key a u ≡ codes "reg:" ++ (a ++ (58 ∷ (u ++ (58 ∷ codes "envelope"))))
unfolding user_envelope_key
envelope_key_lem a u = simp append_assoc

username_lem :
    (a : Text)
    → HasNoColon a
    → (u : Text) → nth 2 (split (user_envelope_key a u)) ≡ some (before_colon u)
username_lem a h u = rw (envelope_key_lem a u) (second_lem a u (codes "envelope") h)

-- If the keys that are found are those of the secrets of some apps, and those of the envelopes of some
-- users of an app whose token has no colon, then no index is out of range, and the tokens and the names
-- are read, each up to its first colon.
pub get_all_lem :
    {D : Type 0} (keys : Text → Go D (List Text)) (d : D) (apps users : List Text) (a : Text)
    → HasNoColon a
    → keys (app_secret_key (codes "*")) d ≡ (some (map app_secret_key apps), d)
    → keys (user_envelope_key a (codes "*")) d ≡ (some (map (user_envelope_key a) users), d)
    → (get_all_app_tokens keys d ≡ (some (map before_colon apps), d))
      × (get_all_usernames_from_envelopes keys a d ≡ (some (map before_colon users), d))
unfolding get_all_app_tokens get_all_usernames_from_envelopes
get_all_lem keys d apps users a h e e' = (
  rw (e, each-map (λ key. nth 1 (split key)) app_secret_key before_colon app_token_lem apps),
  rw (
    e',
    each-map (λ key. nth 2 (split key)) (user_envelope_key a) before_colon (username_lem a h) users,
  ),
)
