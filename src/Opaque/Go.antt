-- ===== src/Opaque/Go.antt =====
-- Go functions that return an error: `none` is a non-nil error, whose text nothing reads. What has
-- been done to the world before the error stays done.
use plissken.Base.{ℕ, suc, zero, Option, none, some, List, [], ◌∷◌, ◌++◌, Text, Bool, true, false}

-- `[]byte`.
abbrev pub Bytes : Type 0
Bytes = Text

abbrev pub Go : Type 0 → Type 0 → Type 0
Go W A = W → Option A × W

module _ {W A : Type 0} where
  abbrev pub pure : A → Go W A
  pure a w = (some a, w)

  abbrev pub fail : Go W A
  fail w = (none, w)

  -- A pure step that may fail.
  abbrev pub lift : Option A → Go W A
  lift r w = (r, w)

  -- `if !test { return error }; …`.
  abbrev pub provided : Bool → Go W A → Go W A
  provided true m w = m w
  provided false m w = (none, w)

  -- `l[0]`, where a panic counts as an error.
  abbrev pub first : List A → Go W A
  first [] w = (none, w)
  first (a ∷ l) w = (some a, w)

module _ {W A B : Type 0} where
  abbrev pub continue : Option A → (A → Go W B) → Go W B
  continue (some a) f w = f a w
  continue none f w = (none, w)

  infixl 5 ◌>>=◌ ◌>>◌
  abbrev pub ◌>>=◌ : Go W A → (A → Go W B) → Go W B
  ◌>>=◌ m f w = let (r, v) = m w in continue r f v

  abbrev pub ◌>>◌ : Go W A → Go W B → Go W B
  m >> k = m >>= λ _. k

-- Slices: `len(b)`, `b[:n]` and `b[n:]`, where n is at most `len(b)`.
module _ {ℓ} {A : Type ℓ} where
  abbrev pub length : List A → ℕ
  length [] = 0
  length (x ∷ xs) = suc (length xs)

  abbrev pub take : ℕ → List A → List A
  take zero xs = []
  take (suc n) [] = []
  take (suc n) (x ∷ xs) = x ∷ take n xs

  abbrev pub drop : ℕ → List A → List A
  drop zero xs = xs
  drop (suc n) [] = []
  drop (suc n) (x ∷ xs) = drop n xs

abbrev pub zeros : ℕ → Bytes
zeros zero = []
zeros (suc n) = 0 ∷ zeros n

-- `var k x25519.Key; copy(k[:], b)`: what is missing of the 32 bytes is zero.
unfoldable pub to_key : Bytes → Bytes
to_key b = take 32 (b ++ zeros 32)
