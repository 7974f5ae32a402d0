-- ===== src/Tests/Opaque.antt =====
-- A registration and logins over primitives and a storage that are enough to satisfy the laws.
use plissken.Base.{
  ℕ, zero, suc, ◌+◌, ◌≡◌, ◌≢◌, ◌↔◌, refl, ap, Option, none, some, List, [], ◌∷◌, ◌++◌, map, Text,
  codes, Bool, true, false, ◌||◌, ◌&&◌, text_eq, text_eq_refl, if◌then◌else◌, arith,
}
use plissken.Opaque.Go.{Bytes, length, take, drop, to_key}
use plissken.Opaque.Slices.{length-append, take-append, drop-append}
use plissken.Opaque.Primitives.{Primitives, Laws}
use plissken.Opaque.Server.{
  UserRequest, UserEnvelope, Storage, World, Server, new_server, is_authenticated,
}
use plissken.Opaque.Session.{register, log_in}
use plissken.Opaque.Acceptance.{IsAccepted, is_authenticated-IsAccepted}
use plissken.Opaque.Stored.{Keeps}
use plissken.Opaque.Agreement.{log_in-register}

-- The first `n` bytes, with zeros for those that are missing.
abbrev pub fill : ℕ → Bytes → Bytes
fill zero b = []
fill (suc n) [] = 0 ∷ fill n []
fill (suc n) (x ∷ b) = x ∷ fill n b

length-fill : (n : ℕ) (b : Bytes) → length (fill n b) ≡ n
length-fill zero b = refl
length-fill (suc n) [] = ap suc (length-fill n [])
length-fill (suc n) (x ∷ b) = ap suc (length-fill n b)

length-map : (f : ℕ → ℕ) (b : Bytes) → length (map f b) ≡ length b
length-map f [] = refl
length-map f (x ∷ b) = ap suc (length-map f b)

abbrev total : Bytes → ℕ
total [] = 0
total (x ∷ b) = x + total b

abbrev first_byte : Bytes → Option ℕ
first_byte [] = none
first_byte (k ∷ b) = some k

abbrev blind_with : List Bytes → List ℕ → Option (ℕ × List Bytes)
blind_with inputs [] = none
blind_with inputs (b ∷ bs) = some (b, map (b ∷◌) inputs)

-- The state of the random source counts; a blind is one number in front of the input, and a
-- server's key one number behind it.
abbrev pub toy : Primitives ℕ
toy = record {
  Element = Bytes;
  Scalar = ℕ;
  PrivateKey = ℕ;
  FinalizeData = ℕ;
  hash_to_element = λ message dst. length dst ∷ message;
  marshal_element = some;
  blind = λ inputs r. (some (r, map (r ∷◌) inputs), suc r);
  copy_blinds = λ d. d ∷ [];
  deterministic_blind = λ inputs blinds. blind_with inputs blinds;
  marshal_scalar = λ x. some (x ∷ []);
  unmarshal_scalar = first_byte;
  compress_element = some;
  unmarshal_element = some;
  finalize = λ d eval. some (map (drop 1) eval);
  generate_key = λ r. (some r, suc r);
  marshal_key = λ k. some (k ∷ []);
  unmarshal_key = first_byte;
  evaluate = λ k es. some (map (◌++ k ∷ []) es);
  random = λ n r. (some (fill n (r ∷ [])), suc r);
  id_key = λ x salt. fill 32 (x ++ salt);
  hkdf = λ secret salt n. some (fill n (secret ++ salt));
  seal = λ key nonce text. some ((key ++ nonce) ++ text);
  open_sealed =
      λ key nonce c. if text_eq (take 28 c) (key ++ nonce) then some (drop 28 c) else none;
  key_gen = map suc;
  shared = λ secret public. some ((total (map suc secret) + total public) ∷ []);
}

open_seal_toy :
    (key nonce text : Bytes)
    → length key ≡ 16
    → length nonce ≡ 12
    → toy.open_sealed key nonce ((key ++ nonce) ++ text) ≡ some text
open_seal_toy key nonce text ek en =
    let e : length (key ++ nonce) ≡ 28 = rw (length-append key nonce, ek, en) in
    rw (
      take-append 28 (key ++ nonce) text e,
      drop-append 28 (key ++ nonce) text e,
      text_eq_refl (key ++ nonce),
    )

pub toy-Laws : Laws toy
toy-Laws = record {
  marshal_element_some = λ e. (e, refl);
  prf = λ k input. input ++ k ∷ [];
  blind_some = λ input r.
      (r, (r ∷ input) ∷ [], suc r, refl, refl, λ k. ((r ∷ input ++ k ∷ []) ∷ [], refl, refl));
  scalar_kept = λ x. (x ∷ [], refl, refl);
  element_kept = λ e. (e, refl, refl);
  generate_key_some = λ r. (r, suc r, refl);
  marshal_key_some = λ k. (k ∷ [], refl, refl);
  random_some = λ n r. (fill n (r ∷ []), suc r, refl, length-fill n (r ∷ []));
  id_key_length = λ x salt. length-fill 32 (x ++ salt);
  hkdf_some =
      λ secret salt n small. (fill n (secret ++ salt), refl, length-fill n (secret ++ salt));
  open_seal =
      λ key nonce text ek en. ((key ++ nonce) ++ text, refl, open_seal_toy key nonce text ek en);
  key_gen_length = λ secret e. rw (length-map suc secret, e);
  shared_comm = λ a b ea eb.
      ((total (map suc a) + total (map suc b)) ∷ [], refl, ap (λ n. some (n ∷ [])) (omega arith));
}

-- Maps as lists of entries under an app token and a user name.
abbrev find : {A : Type 0} → Text → Text → List (Text × Text × A) → Option A
find a u [] = none
find a u ((b, v, x) ∷ l) = if text_eq a b && text_eq u v then some x else find a u l

abbrev has : {A : Type 0} → (A → Bool) → Text → Text → List (Text × Text × A) → Bool
has ok a u [] = false
has ok a u ((b, v, x) ∷ l) = (text_eq a b && text_eq u v && ok x) || has ok a u l

record Store : Type 0 where
  requests : List (Text × Text × UserRequest)
  envelopes : List (Text × Text × UserEnvelope)
  nonces : List (Text × Text × Bytes)

abbrev lists : Storage Store
lists = record {
  store_user_request = λ a u x s. (some tt, record s { requests = (a, u, x) ∷ s.requests });
  load_user_request = λ a u s. (find a u s.requests, s);
  has_user_request = λ a u s. (some (has (λ _. true) a u s.requests), s);
  store_user_envelope = λ a u x s. (some tt, record s { envelopes = (a, u, x) ∷ s.envelopes });
  load_user_envelope = λ a u s. (find a u s.envelopes, s);
  store_auth_nonce = λ a u n s. (some tt, record s { nonces = (a, u, n) ∷ s.nonces });
  has_auth_nonce = λ a u n s. (some (has (text_eq n) a u s.nonces), s);
}

lists-Keeps : Keeps lists (λ s. Unit)
lists-Keeps = record {
  request_kept = λ a u x s _. (
    record s { requests = (a, u, x) ∷ s.requests },
    refl,
    rw (text_eq_refl a, text_eq_refl u),
    tt,
  );
  envelope_kept = λ a u x s _. (
    record s { envelopes = (a, u, x) ∷ s.envelopes },
    refl,
    rw (text_eq_refl a, text_eq_refl u),
    tt,
  );
  nonce_kept = λ a u n x s _ e. (
    record s { nonces = (a, u, n) ∷ s.nonces },
    refl,
    rw (text_eq_refl a, text_eq_refl u, text_eq_refl n),
    ap (λ z. (z.0, record s { nonces = (a, u, n) ∷ s.nonces })) e,
    tt,
  );
}

abbrev secret_word : Bytes
secret_word = codes "password1"

abbrev empty : Store
empty = record { requests = []; envelopes = []; nonces = [] }

log_in-register_example :
    (s : Server) × (r' : ℕ) × (w₁ w₂ w₃ : World ℕ Store) × (new_server toy none 7 ≡ (some s, r'))
    × (register toy lists s
          (codes "app")
          (codes "ann")
          secret_word
          (record { random = r'; store = empty })
        ≡ (some tt, w₁))
    × (log_in toy lists s (codes "app") (codes "ann") secret_word w₁ ≡ (some true, w₂))
    × (log_in toy lists s (codes "app") (codes "ann") secret_word w₂ ≡ (some true, w₃))
log_in-register_example =
    log_in-register toy toy-Laws lists (λ s. Unit) lists-Keeps none (codes "app") (codes "ann")
      secret_word 7 empty tt

abbrev pub server : Server
server = record { priv_s = fill 32 (7 ∷ []); pub_s = map suc (fill 32 (7 ∷ [])) }

abbrev pub auth_nonce : Bytes
auth_nonce = fill 12 (5 ∷ [])

-- A world in which the user has registered and the nonce has been handed out.
abbrev enrolled : World ℕ Store
enrolled = record {
  random = 9;
  store = record {
    requests = [];
    envelopes =
        (
          codes "app",
          codes "ann",
          record {
            user_pub_key = map suc (fill 32 (8 ∷ []));
            envu = [];
            envu_nonce = [];
            user_key_salt = [];
            oprf_priv_key = [];
          },
        )
        ∷ [];
    nonces = (codes "app", codes "ann", auth_nonce) ∷ [];
  };
}

-- The two private keys and 32 ones on each side make the shared key 79.
abbrev pub token : Bytes
token = auth_nonce ++ fill 32 (79 ∷ auth_nonce)

token_accepted :
    (is_authenticated toy lists server (codes "app") (codes "ann") token enrolled).0 ≡ some true
unfolding is_authenticated to_key text_eq
token_accepted = refl

is_authenticated-IsAccepted_example :
    ((is_authenticated toy lists server (codes "app") (codes "ann") token enrolled).0 ≡ some true
      ↔ IsAccepted toy lists server (codes "app") (codes "ann") token enrolled.store)
    × ((is_authenticated toy lists server (codes "app") (codes "ann") token enrolled).0
        ≢ some false)
is_authenticated-IsAccepted_example =
    is_authenticated-IsAccepted toy lists server (codes "app") (codes "ann") token enrolled
