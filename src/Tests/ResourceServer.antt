-- ===== src/Tests/ResourceServer.antt =====
-- The theorems on the resource server, at an auth server that knows one session token.
use plissken.Base.{
  ℕ, suc, ◌≡◌, ◌↔◌, refl, none, some, false, [], ◌∷◌, Text, codes, text_eq, if◌then◌else◌,
}
use plissken.ResourceServer.{
  Config, PlisskenCheckCredentialsResponseData, Libraries, Request, Local, is_error, just,
  is_options, check_credentials, serve_get_resource, serve_put_resource, resource_key,
}
use plissken.ResourceServer.Requests.{
  StoreLaws, serve_get_resource-credentials, serve_put_resource-credentials,
  serve_get_resource-serve_put_resource,
}
use plissken.ResourceServer.Interleaved.{Serving, Steps, Steps-unauthorized}
use plissken.System.Resources.{query}
use plissken.Tests.AuthServer.{Database, put, put-same, small, small-RedisLaws, empty}
use plissken.AuthServer.Redis.{string}

abbrev data_of : Text → PlisskenCheckCredentialsResponseData
data_of u = record { username = u; created_at = 0; sdk_version = codes "1.0"; expires_at = 900 }

-- The world counts the questions.
abbrev libraries : Libraries ℕ Database
libraries = record {
  ask = λ url ps n. (
    some (
        if text_eq (query (codes "session_token") ps) (codes "good")
        then record { status_code = 200; decoded = some (data_of (query (codes "username") ps)) }
        else record { status_code = 401; decoded = none }),
    suc n,
  );
  get = small.get;
  set = small.set;
  formatted = λ t. t;
}

libraries-StoreLaws : StoreLaws libraries
libraries-StoreLaws = record {
  set_some = λ k v d.
      let (d', e, h, _) = small-RedisLaws.set_value k v d in
      (d', e, small-RedisLaws.get_value k v d' h);
}

abbrev config : Config
config = record {
  plissken_app_secret = codes "secret";
  plissken_app_token = codes "app";
  plissken_auth_endpoint = [];
}

abbrev request : Text → Text → Request
request method token = record {
  method = method;
  username = codes "ann";
  session_token = token;
  ts = codes "5";
}

abbrev stored : Database
stored = put (resource_key (codes "ann")) (some (string (codes "5"))) empty

abbrev full : Local Database
full = record { err = false; store = stored }

get_of_ann : (small.get (resource_key (codes "ann")) stored).0 ≡ some (codes "5")
get_of_ann = rw (put-same (resource_key (codes "ann")) (some (string (codes "5"))) empty)

get_no_options : is_options (request (codes "GET") (codes "good")) ≡ false
unfolding is_options text_eq
get_no_options = refl

bad_no_options : is_options (request (codes "GET") (codes "bad")) ≡ false
unfolding is_options text_eq
bad_no_options = refl

put_no_options : is_options (request (codes "PUT") (codes "good")) ≡ false
unfolding is_options text_eq
put_no_options = refl

good_lem :
    (n : ℕ)
    → check_credentials libraries config (codes "ann") (codes "good") n
      ≡ (some (data_of (codes "ann")), suc n)
unfolding check_credentials text_eq
good_lem n = refl

bad_lem : (n : ℕ) → check_credentials libraries config (codes "ann") (codes "bad") n ≡ (none, suc n)
unfolding check_credentials text_eq
bad_lem n = refl

serve_get_resource-credentials_example :
    ((serve_get_resource libraries config (request (codes "GET") (codes "good")) (0, full)).0
      ≡ record { status_code = 200; body = codes "5" })
    ↔ ((c : PlisskenCheckCredentialsResponseData) × (val : Text) × ((check_credentials libraries
            config
            (codes "ann")
            (codes "good")
            0).0
          ≡ some c)
        × ((small.get (resource_key (codes "ann")) stored).0 ≡ some val)
        × (val ≡ codes "5"))
serve_get_resource-credentials_example =
    serve_get_resource-credentials libraries config (request (codes "GET") (codes "good")) 0 full
      (codes "5") get_no_options

serve_put_resource-credentials_example :
    (((serve_put_resource libraries config (request (codes "PUT") (codes "good")) (0, full)).0
        ≡ just 200)
      ↔ ((c : PlisskenCheckCredentialsResponseData) × ((check_credentials libraries config
              (codes "ann")
              (codes "good")
              0).0
            ≡ some c)
          × ((libraries.set (resource_key (codes "ann")) (codes "5") stored).0 ≡ some tt)))
    × (((serve_put_resource libraries config (request (codes "PUT") (codes "good")) (0, full)).0
          ≡ just 401)
        ↔ ((check_credentials libraries config (codes "ann") (codes "good") 0).0 ≡ none))
    × ((serve_put_resource libraries config
          (request (codes "PUT") (codes "good"))
          (0, full)).1.1.store
        ≡ (if is_error (check_credentials libraries config (codes "ann") (codes "good") 0).0
            then stored
            else (libraries.set (resource_key (codes "ann")) (codes "5") stored).1))
serve_put_resource-credentials_example =
    serve_put_resource-credentials libraries config (request (codes "PUT") (codes "good")) 0 full
      put_no_options

serve_get_resource-serve_put_resource_example :
    (d : Database) × (serve_put_resource libraries config
        (request (codes "PUT") (codes "good"))
        (0, record { err = false; store = empty })
      ≡ (just 200, (1, record { err = false; store = d })))
    × (serve_get_resource libraries config
          (request (codes "GET") (codes "good"))
          (1, record { err = false; store = d })
        ≡ (record { status_code = 200; body = codes "5" }, (2, record { err = false; store = d })))
serve_get_resource-serve_put_resource_example =
    serve_get_resource-serve_put_resource libraries config libraries-StoreLaws
      (request (codes "PUT") (codes "good")) (request (codes "GET") (codes "good")) 0 1 2
      (record { err = false; store = empty }) (data_of (codes "ann")) (data_of (codes "ann"))
      put_no_options get_no_options refl (good_lem 0) (good_lem 1)

Steps-unauthorized_example :
    (t : Serving ℕ Database) × Steps libraries config
      (record { state = (0, full); running = []; answered = [] })
      t
    × (t.answered
        ≡ (request (codes "GET") (codes "bad"), record { status_code = 200; body = codes "5" })
          ∷ [])
Steps-unauthorized_example =
    Steps-unauthorized libraries config (request (codes "GET") (codes "bad"))
      (request (codes "GET") (codes "good")) 0 1 2 (data_of (codes "ann")) (codes "5") full stored
      bad_no_options get_no_options (bad_lem 0) (good_lem 1) (rw get_of_ann)
