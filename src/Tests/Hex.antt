-- ===== src/Tests/Hex.antt =====
-- A hex that is enough to satisfy the laws.
use plissken.Base.{ℕ, zero, suc, ◌≡◌, refl, ap, some, [], ◌∷◌, Text, ◌==◌, if◌then◌else◌, arith}
use plissken.Opaque.Go.{Bytes}
use plissken.Common.Documents.{IsAscii}
use plissken.Common.Codec.{Hex, HexLaws}

-- A number in unary, behind a 0.
abbrev ones : ℕ → Text → Text
ones zero t = t
ones (suc n) t = 49 ∷ ones n t

abbrev unary : Bytes → Text
unary [] = []
unary (b ∷ bs) = 48 ∷ ones b (unary bs)

-- What has been counted since the last number, and the numbers.
record Counted : Type 0 where
  number : ℕ
  bytes : Bytes

abbrev count_digit : ℕ → Counted → Counted
count_digit c s =
    if c == 48
    then record { number = 0; bytes = s.number ∷ s.bytes }
    else record { number = suc s.number; bytes = s.bytes }

abbrev counted : Text → Counted
counted [] = record { number = 0; bytes = [] }
counted (c ∷ t) = count_digit c (counted t)

abbrev pub bytes_of : Text → Bytes
bytes_of t = (counted t).bytes

counted-ones :
    (n : ℕ) (t : Text)
    → (counted t).number ≡ 0
    → counted (ones n t) ≡ record { number = n; bytes = (counted t).bytes }
counted-ones zero t e = λ i. record { number = e i; bytes = (counted t).bytes }
counted-ones (suc n) t e = rw (counted-ones n t e)

counted-unary : (b : Bytes) → counted (unary b) ≡ record { number = 0; bytes = b }
counted-unary [] = refl
counted-unary (b ∷ bs) = let e = counted-unary bs in rw (counted-ones b (unary bs) (rw e), e)

ones-IsAscii : (n : ℕ) (t : Text) → IsAscii t → IsAscii (ones n t)
ones-IsAscii zero t h = h
ones-IsAscii (suc n) t h = (omega arith, ones-IsAscii n t h)

unary-IsAscii : (b : Bytes) → IsAscii (unary b)
unary-IsAscii [] = tt
unary-IsAscii (b ∷ bs) = (omega arith, ones-IsAscii b (unary bs) (unary-IsAscii bs))

abbrev pub small_hex : Hex
small_hex = record { encode = unary; decode = λ t. some (bytes_of t) }

pub bytes_of-encode : (b : Bytes) → bytes_of (unary b) ≡ b
bytes_of-encode b = ap (λ s. s.bytes) (counted-unary b)

pub small-HexLaws : HexLaws small_hex
small-HexLaws = record {
  decode-encode = λ b. ap some (bytes_of-encode b);
  encode-IsAscii = unary-IsAscii;
}
