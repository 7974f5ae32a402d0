-- ===== src/Tests/AuthServer.antt =====
-- A Redis and encodings that are enough to satisfy the laws, and the theorems at them.
use plissken.Base.{
  ℕ, suc, ◌≡◌, ◌≢◌, ◌↔◌, refl, ap, ◌∙◌, Option, none, some, List, [], ◌∷◌, ◌++◌, Text, codes, true,
  Bool-cases, inl, inr, text_eq, text_eq_iff, text_eq_refl, if◌then◌else◌, arith,
}
use plissken.Opaque.Go.{Bytes, Go, length, take, drop}
use plissken.Opaque.Slices.{take-append, drop-append}
use plissken.Opaque.Server.{UserEnvelope, World, Server, new_server}
use plissken.Opaque.Session.{register, log_in}
use plissken.AuthServer.Redis.{
  Redis, RedisLaws, Encodings, EncodingLaws, Value, string, list, entries, count,
}
use plissken.AuthServer.RedisWrapper.{redis_storage, has_auth_nonce}
use plissken.AuthServer.RedisWrapper.{
  user_envelope_key, user_request_key, auth_nonces_key, session_token_key,
}
use plissken.AuthServer.Keys.{HasNoColon, keys-injective, keys-shared}
use plissken.AuthServer.Nonces.{store_nonces, is_one_of, has_auth_nonce-store_nonces}
use plissken.AuthServer.Agreement.{redis_storage-log_in}
use plissken.Tests.Opaque.{toy, toy-Laws}

-- A database is a function. The source of randomness always gives 0, so that each push cuts.
abbrev pub Database : Type 0
Database = Text → Option Value

abbrev pub put : Text → Option Value → Database → Database
put k o d k' = if text_eq k' k then o else d k'

pub put-same : (k : Text) (o : Option Value) (d : Database) → put k o d k ≡ o
put-same k o d = rw (text_eq_refl k)

pub put-other :
    (k : Text) (o : Option Value) (d : Database) (k' : Text) → k' ≢ k → put k o d k' ≡ d k'
put-other k o d k' ne = elim (Bool-cases (text_eq k' k)) [
  | inl same ↦ absurd (ne ((text_eq_iff k' k).0 same))
  | inr differs ↦ rw differs
]

abbrev of_string : Option Value → Option Text
of_string (some (string v)) = some v
of_string _ = none

abbrev change : Text → (List Text → List Text) → Option (List Text) → Go Database (Unit {0})
change k f (some l) d = (some tt, put k (some (list (f l))) d)
change k f none d = (none, d)

abbrev cut : ℕ → Option (List Text) → Option (List Text)
cut n (some l) = some (take n l)
cut n none = none

abbrev pub small : Redis Database
small = record {
  set = λ k v d. (some tt, put k (some (string v)) d);
  set_expiring = λ k v _ d. (some tt, put k (some (string v)) d);
  get = λ k d. (of_string (d k), d);
  exists = λ k d. (some (count (d k)), d);
  l_push = λ k v d. change k (v ∷◌) (entries (d k)) d;
  l_trim = λ k start stop d. change k (take (suc stop)) (entries (d k)) d;
  l_range = λ k start stop d. (cut (suc stop) (entries (d k)), d);
  intn = λ n d. (some 0, d);
}

pub small-RedisLaws : RedisLaws small (λ d. d)
small-RedisLaws = record {
  set_value = λ k v d. (put k (some (string v)) d, refl, put-same k _ d, put-other k _ d);
  set_expiring_value =
      λ k v _ d. (put k (some (string v)) d, refl, put-same k _ d, put-other k _ d);
  get_value = λ k v d e. rw e;
  get_none = λ k d e. rw e;
  get_list = λ k d l e. rw e;
  exists_value = λ k d. refl;
  l_push_value = λ k v d l e. (
    put k (some (list (v ∷ l))) d,
    rw e,
    rw (put-same k (some (list (v ∷ l))) d),
    put-other k _ d,
  );
  l_trim_value = λ k n d l e. (
    put k (some (list (take (suc n) l))) d,
    rw e,
    rw (put-same k (some (list (take (suc n) l))) d),
    put-other k _ d,
  );
  l_range_value = λ k n d l e. rw e;
  intn_value = λ n d. (0, d, refl, omega arith, λ k. refl);
}

-- A text with its length in front.
abbrev pub frame : Bytes → Text
frame b = length b ∷ b

abbrev read : {A : Type 0} → Text → (Bytes → Text → Option A) → Option A
read [] f = none
read (n ∷ t) f = f (take n t) (drop n t)

read-frame :
    {A : Type 0} (b : Bytes) (t : Text) (f : Bytes → Text → Option A)
    → read (frame b ++ t) f ≡ f b t
read-frame b t f =
    ap (λ x. f x (drop (length b) (b ++ t))) (take-append (length b) b t refl)
    ∙ ap (f b) (drop-append (length b) b t refl)

abbrev read_key : (user_pub_key envu envu_nonce user_key_salt : Bytes) → Text → Option UserEnvelope
read_key a b n t k =
    some
      (record { user_pub_key = a; envu = b; envu_nonce = n; user_key_salt = t; oprf_priv_key = k })

abbrev pub plain : Encodings
plain = record {
  marshal_request = λ x. some (123 ∷ x.client_oprf_priv_key);
  unmarshal_request = λ t. some (record { client_oprf_priv_key = drop 1 t });
  marshal_envelope = λ x. some (
      frame x.user_pub_key
      ++ (frame x.envu ++ (frame x.envu_nonce ++ (frame x.user_key_salt ++ x.oprf_priv_key))));
  unmarshal_envelope =
      λ text. read text λ a r. read r λ b r. read r λ n r. read r λ t r. read_key a b n t r;
  decode_hex = λ t. drop 1 t;
  hex = record { encode = λ b. 48 ∷ b; decode = λ t. some (drop 1 t) };
}

plain_envelope :
    (a b n t k : Bytes)
    → plain.unmarshal_envelope (frame a ++ (frame b ++ (frame n ++ (frame t ++ k))))
      ≡ read_key a b n t k
plain_envelope a b n t k =
    read-frame a (frame b ++ (frame n ++ (frame t ++ k)))
      (λ a r. read r λ b r. read r λ n r. read r λ t r. read_key a b n t r)
    ∙ read-frame b (frame n ++ (frame t ++ k))
        (λ b r. read r λ n r. read r λ t r. read_key a b n t r)
    ∙ read-frame n (frame t ++ k) (λ n r. read r λ t r. read_key a b n t r)
    ∙ read-frame t k (λ t r. read_key a b n t r)

pub plain-EncodingLaws : EncodingLaws plain
plain-EncodingLaws = record {
  request_kept = λ x. (123, x.client_oprf_priv_key, refl, refl);
  envelope_kept = λ x.
      (_, refl, plain_envelope x.user_pub_key x.envu x.envu_nonce x.user_key_salt x.oprf_priv_key);
  hex_kept = λ b. refl;
}

abbrev pub empty : Database
empty k = none

redis_storage-log_in_example :
    (s : Server) × (r' : ℕ) × (w₁ w₂ w₃ : World ℕ Database) × (new_server toy none 7 ≡ (some s, r'))
    × (register toy
          (redis_storage small plain)
          s
          (codes "app")
          (codes "ann")
          (codes "password1")
          (record { random = r'; store = empty })
        ≡ (some tt, w₁))
    × (log_in toy (redis_storage small plain) s (codes "app") (codes "ann") (codes "password1") w₁
        ≡ (some true, w₂))
    × (log_in toy (redis_storage small plain) s (codes "app") (codes "ann") (codes "password1") w₂
        ≡ (some true, w₃))
redis_storage-log_in_example =
    redis_storage-log_in small plain small-RedisLaws plain-EncodingLaws toy toy-Laws none
      (codes "app") (codes "ann") (codes "password1") 7 empty
      (record { nonces = λ a u. ([], refl) })

has_auth_nonce-store_nonces_example :
    (d' : Database) × (store_nonces small plain
        (codes "app")
        (codes "ann")
        ((1 ∷ []) ∷ (2 ∷ []) ∷ [])
        empty
      ≡ (some tt, d'))
    × ((nonce : Bytes)
        → has_auth_nonce small plain (codes "app") (codes "ann") nonce d'
          ≡ (some (is_one_of nonce (take 21 ((1 ∷ []) ∷ (2 ∷ []) ∷ []))), d'))
has_auth_nonce-store_nonces_example =
    has_auth_nonce-store_nonces small plain small-RedisLaws plain-EncodingLaws (codes "app")
      (codes "ann") ((1 ∷ []) ∷ (2 ∷ []) ∷ []) empty refl

app_without_colon : HasNoColon (codes "app")
app_without_colon = (ground arith, (ground arith, (ground arith, tt)))

keys-injective_example :
    ((user_envelope_key (codes "app") (codes "ann") ≡ user_envelope_key (codes "app") (codes "bob"))
      ↔ ((codes "app" ≡ codes "app") × (codes "ann" ≡ codes "bob")))
    × ((user_request_key (codes "app") (codes "ann") ≡ user_request_key (codes "app") (codes "bob"))
        ↔ ((codes "app" ≡ codes "app") × (codes "ann" ≡ codes "bob")))
    × ((auth_nonces_key (codes "app") (codes "ann") ≡ auth_nonces_key (codes "app") (codes "bob"))
        ↔ ((codes "app" ≡ codes "app") × (codes "ann" ≡ codes "bob")))
    × ((session_token_key (codes "app") (codes "ann")
          ≡ session_token_key (codes "app") (codes "bob"))
        ↔ ((codes "app" ≡ codes "app") × (codes "ann" ≡ codes "bob")))
keys-injective_example =
    keys-injective (codes "app") (codes "app") (codes "ann") (codes "bob") app_without_colon
      app_without_colon

keys-shared_example :
    (user_envelope_key (codes "app:one") (codes "ann")
      ≡ user_envelope_key (codes "app") (codes "one:ann"))
    × (user_request_key (codes "app:one") (codes "ann")
        ≡ user_request_key (codes "app") (codes "one:ann"))
    × (auth_nonces_key (codes "app:one") (codes "ann")
        ≡ auth_nonces_key (codes "app") (codes "one:ann"))
    × (session_token_key (codes "app:one") (codes "ann")
        ≡ session_token_key (codes "app") (codes "one:ann"))
keys-shared_example = keys-shared (codes "app") (codes "one") (codes "ann")
