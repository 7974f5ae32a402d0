-- ===== src/AuthServer/Cors.antt =====
-- The origins of auth-server/server/server.go.
use plissken.Base.{
  ◌≡◌, ◌↔◌, ◌⊎◌, inl, inr, refl, ap, ℕ, Option, none, some, Bool, true, false, ◌||◌, List, [], ◌∷◌,
  ◌++◌, Text, ◌==◌, ◌&&◌, ==_iff, Bool-cases, if◌then◌else◌,
}

-- `strings.HasPrefix` and `strings.Contains`.
unfoldable pub has_prefix : (s prefix : Text) → Bool
has_prefix s [] = true
has_prefix [] (c ∷ p) = false
has_prefix (d ∷ s) (c ∷ p) = (d == c) && has_prefix s p

unfoldable pub contains : (s substr : Text) → Bool
contains [] t = has_prefix [] t
contains (c ∷ s) t = has_prefix (c ∷ s) t || contains s t

-- The loop of `AllowOriginFunc`.
unfoldable pub any_contained : List Text → Text → Bool
any_contained [] origin = false
any_contained (v ∷ whitelist) origin =
    let rest = any_contained whitelist origin in if contains origin v then true else rest

-- Whether an origin is allowed: any is if there is no list.
unfoldable pub allow_origin : Option (List Text) → Text → Bool
allow_origin none origin = true
allow_origin (some whitelist) origin = any_contained whitelist origin

-- Some text of the list stands somewhere in the origin.
pub data Holds : List Text → Text → Type 0 where
  here : {v : Text} {l : List Text} {o : Text} (a b : Text) → o ≡ a ++ (v ++ b) → Holds (v ∷ l) o
  there : {v : Text} {l : List Text} {o : Text} → Holds l o → Holds (v ∷ l) o

and_lem : (a b : Bool) → (a && b) ≡ true → (a ≡ true) × (b ≡ true)
and_lem true b e = (refl, e)
and_lem false b e = cc

or_lem : (a b : Bool) → (a || b) ≡ true → (a ≡ true) ⊎ (b ≡ true)
or_lem true b e = inl refl
or_lem false b e = inr e

has_prefix-split : (s p : Text) → has_prefix s p ≡ true → (b : Text) × (s ≡ p ++ b)
unfolding has_prefix
has_prefix-split s [] e = (s, refl)
has_prefix-split [] (c ∷ p) e = cc
has_prefix-split (d ∷ s) (c ∷ p) e =
    let (same, more) = and_lem (d == c) (has_prefix s p) e in
    let (b, h) = has_prefix-split s p more in let k = (==_iff d c).0 same in (b, λ i. k i ∷ h i)

has_prefix-append : (p b : Text) → has_prefix (p ++ b) p ≡ true
unfolding has_prefix
has_prefix-append [] b = refl
has_prefix-append (c ∷ p) b = rw ((==_iff c c).1 refl, has_prefix-append p b)

contains-split : (s v : Text) → contains s v ≡ true → (a : Text) × (b : Text) × (s ≡ a ++ (v ++ b))
unfolding contains
contains-split [] v e = let (b, h) = has_prefix-split [] v e in ([], b, h)
contains-split (c ∷ s) v e = elim (or_lem (has_prefix (c ∷ s) v) (contains s v) e) [
  | inl first ↦ let (b, h) = has_prefix-split (c ∷ s) v first in ([], b, h)
  | inr later ↦ let (a, b, h) = contains-split s v later in (c ∷ a, b, ap (c ∷◌) h)
]

prefix-contains : (s v : Text) → has_prefix s v ≡ true → contains s v ≡ true
unfolding contains
prefix-contains [] v e = e
prefix-contains (c ∷ s) v e = rw e

later-contains : (c : ℕ) (s v : Text) → contains s v ≡ true → contains (c ∷ s) v ≡ true
unfolding contains
later-contains c s v e = elim (Bool-cases (has_prefix (c ∷ s) v)) [
  | inl first ↦ rw first
  | inr not_first ↦ rw (not_first, e)
]

contains-append : (a v b : Text) → contains (a ++ (v ++ b)) v ≡ true
contains-append [] v b = prefix-contains (v ++ b) v (has_prefix-append v b)
contains-append (c ∷ a) v b = later-contains c (a ++ (v ++ b)) v (contains-append a v b)

any_contained-Holds : (l : List Text) (o : Text) → any_contained l o ≡ true → Holds l o
unfolding any_contained
any_contained-Holds [] o e = cc
any_contained-Holds (v ∷ l) o e = elim (Bool-cases (contains o v)) [
  | inl found ↦ let (a, b, h) = contains-split o v found in here a b h
  | inr missing ↦ there (any_contained-Holds l o (rw missing at e))
]

Holds-any_contained : (l : List Text) (o : Text) → Holds l o → any_contained l o ≡ true
unfolding any_contained
Holds-any_contained [] o x = elim x [ ]
Holds-any_contained (v ∷ l) o (here a b e) = rw (e, contains-append a v b)
Holds-any_contained (v ∷ l) o (there h) = elim (Bool-cases (contains o v)) [
  | inl found ↦ rw found
  | inr missing ↦ rw (missing, Holds-any_contained l o h)
]

-- With a list, an origin is allowed exactly if some text of the list stands somewhere in it, at its
-- start, in its middle or at its end.
pub allow_origin-Holds :
    (whitelist : List Text) (origin : Text)
    → (allow_origin (some whitelist) origin ≡ true) ↔ Holds whitelist origin
unfolding allow_origin
allow_origin-Holds whitelist origin =
    (any_contained-Holds whitelist origin, Holds-any_contained whitelist origin)
