-- ===== src/AuthServer/Redis.antt =====
-- What the storage calls: a Redis client, the source of randomness, and Go's encodings.
use plissken.Base.{ℕ, suc, ◌<◌, ◌≡◌, ◌≢◌, Option, none, some, List, [], ◌∷◌, Text}
use plissken.Opaque.Go.{Bytes, Go, take}
use plissken.Common.Codec.{Hex}
use plissken.Opaque.Server.{UserRequest, UserEnvelope}

pub record Redis (D : Type 0) : Type 0 where
  -- `Set` without an expiry, `Set` with one, in seconds, `Get` and `Exists`.
  pub set : (key value : Text) → Go D (Unit {0})
  pub set_expiring : (key value : Text) → ℕ → Go D (Unit {0})
  pub get : Text → Go D Text
  pub exists : Text → Go D ℕ
  pub l_push : (key value : Text) → Go D (Unit {0})
  pub l_trim : (key : Text) → (start stop : ℕ) → Go D (Unit {0})
  pub l_range : (key : Text) → (start stop : ℕ) → Go D (List Text)
  -- `mathRand.Intn`.
  pub intn : ℕ → Go D ℕ

-- `encoding/json` at two types, and `encoding/hex`. `decode_hex` is what is decoded before the first
-- error.
pub record Encodings : Type 0 where
  pub marshal_request : UserRequest → Option Text
  pub unmarshal_request : Text → Option UserRequest
  pub marshal_envelope : UserEnvelope → Option Text
  pub unmarshal_envelope : Text → Option UserEnvelope
  pub hex : Hex
  pub decode_hex : Text → Bytes

pub data Value : Type 0 where
  string : Text → Value
  list : List Text → Value

-- The list at a key, empty if there is none.
abbrev pub entries : Option Value → Option (List Text)
entries none = some []
entries (some (list l)) = some l
entries (some (string v)) = none

-- How many of one key there are.
abbrev pub count : Option Value → ℕ
count none = 0
count (some v) = 1

-- The documented effects of the commands on the values of a database.
pub record RedisLaws {D : Type 0} (r : Redis D) (value : D → Text → Option Value) : Type 0 where
  pub set_value :
      (k v : Text) (d : D)
      → (d' : D) × (r.set k v d ≡ (some tt, d'))
        × (value d' k ≡ some (string v))
        × ((k' : Text) → k' ≢ k → value d' k' ≡ value d k')
  -- As long as it has not expired.
  pub set_expiring_value :
      (k v : Text) (seconds : ℕ) (d : D)
      → (d' : D) × (r.set_expiring k v seconds d ≡ (some tt, d'))
        × (value d' k ≡ some (string v))
        × ((k' : Text) → k' ≢ k → value d' k' ≡ value d k')
  pub get_value : (k v : Text) (d : D) → value d k ≡ some (string v) → r.get k d ≡ (some v, d)
  pub get_none : (k : Text) (d : D) → value d k ≡ none → r.get k d ≡ (none, d)
  pub get_list :
      (k : Text) (d : D) (l : List Text) → value d k ≡ some (list l) → r.get k d ≡ (none, d)
  pub exists_value : (k : Text) (d : D) → r.exists k d ≡ (some (count (value d k)), d)
  pub l_push_value :
      (k v : Text) (d : D) (l : List Text)
      → entries (value d k) ≡ some l
      → (d' : D) × (r.l_push k v d ≡ (some tt, d'))
        × (entries (value d' k) ≡ some (v ∷ l))
        × ((k' : Text) → k' ≢ k → value d' k' ≡ value d k')
  pub l_trim_value :
      (k : Text) (n : ℕ) (d : D) (l : List Text)
      → entries (value d k) ≡ some l
      → (d' : D) × (r.l_trim k 0 n d ≡ (some tt, d'))
        × (entries (value d' k) ≡ some (take (suc n) l))
        × ((k' : Text) → k' ≢ k → value d' k' ≡ value d k')
  pub l_range_value :
      (k : Text) (n : ℕ) (d : D) (l : List Text)
      → entries (value d k) ≡ some l
      → r.l_range k 0 n d ≡ (some (take (suc n) l), d)
  pub intn_value :
      (n : ℕ) (d : D)
      → (i : ℕ) × (d' : D) × (r.intn (suc n) d ≡ (some i, d'))
        × (i < suc n)
        × ((k : Text) → value d' k ≡ value d k)

pub record EncodingLaws (c : Encodings) : Type 0 where
  -- A JSON object is never the empty text.
  pub request_kept :
      (x : UserRequest)
      → (first : ℕ) × (rest : Text) × (c.marshal_request x ≡ some (first ∷ rest))
        × (c.unmarshal_request (first ∷ rest) ≡ some x)
  pub envelope_kept :
      (x : UserEnvelope)
      → (text : Text) × (c.marshal_envelope x ≡ some text) × (c.unmarshal_envelope text ≡ some x)
  pub hex_kept : (b : Bytes) → c.decode_hex (c.hex.encode b) ≡ b
