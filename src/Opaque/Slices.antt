-- ===== src/Opaque/Slices.antt =====
-- Appended slices: their length, and what cutting them gives back.
use plissken.Base.{ℕ, suc, zero, ◌+◌, ◌≡◌, refl, ap, subst, List, [], ◌∷◌, ◌++◌, true, ltb, arith}
use plissken.Opaque.Go.{Bytes, length, take, drop, to_key, zeros}

module _ {ℓ} {A : Type ℓ} where
  pub length-append : (xs ys : List A) → length (xs ++ ys) ≡ length xs + length ys
  length-append [] ys = omega arith
  length-append (x ∷ xs) ys = let ih = length-append xs ys in omega arith

  take-append_self : (xs ys : List A) → take (length xs) (xs ++ ys) ≡ xs
  take-append_self [] ys = refl
  take-append_self (x ∷ xs) ys = ap (x ∷◌) (take-append_self xs ys)

  drop-append_self : (xs ys : List A) → drop (length xs) (xs ++ ys) ≡ ys
  drop-append_self [] ys = refl
  drop-append_self (x ∷ xs) ys = drop-append_self xs ys

  pub take-append : (n : ℕ) (xs ys : List A) → length xs ≡ n → take n (xs ++ ys) ≡ xs
  take-append n xs ys e = subst (λ m. take m (xs ++ ys) ≡ xs) e (take-append_self xs ys)

  pub drop-append : (n : ℕ) (xs ys : List A) → length xs ≡ n → drop n (xs ++ ys) ≡ ys
  drop-append n xs ys e = subst (λ m. drop m (xs ++ ys) ≡ ys) e (drop-append_self xs ys)

module _ {ℓ} {A : Type ℓ} where
  -- Cutting what is long enough gives as many elements as it asks for.
  pub length-take : (n : ℕ) (xs : List A) (m : ℕ) → length xs ≡ n + m → length (take n xs) ≡ n
  length-take zero xs m e = refl
  length-take (suc n) [] m e = omega arith
  length-take (suc n) (x ∷ xs) m e = ap suc (length-take n xs m (omega arith))

module _ {ℓ} {A : Type ℓ} where
  pub length-drop : (n : ℕ) (xs : List A) (m : ℕ) → length xs ≡ n + m → length (drop n xs) ≡ m
  length-drop zero xs m e = omega arith
  length-drop (suc n) [] m e = omega arith
  length-drop (suc n) (x ∷ xs) m e = length-drop n xs m (omega arith)

pub to_key-length : (b : Bytes) → length (to_key b) ≡ 32
unfolding to_key
to_key-length b =
    let e : length (b ++ zeros 32) ≡ length b + 32 = length-append b (zeros 32) in
    length-take 32 (b ++ zeros 32) (length b) (omega arith)

-- A slice of 32 bytes is its own key.
pub to_key-full : (b : Bytes) → length b ≡ 32 → to_key b ≡ b
unfolding to_key
to_key-full b e = take-append 32 b (zeros 32) e

pub holds_two_keys : (a b : Bytes) → length a ≡ 32 → length b ≡ 32 → ltb 31 (length (a ++ b)) ≡ true
holds_two_keys a b ea eb = rw (length-append a b, ea, eb)
