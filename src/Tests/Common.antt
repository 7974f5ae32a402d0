-- ===== src/Tests/Common.antt =====
-- The theorems on the messages of common.go at small libraries.
use plissken.Base.{◌≡◌, refl, some, List, [], ◌∷◌, Text, codes, arith}
use plissken.Opaque.Go.{Bytes}
use plissken.Common.Messages.{
  OprfRequestResults, PasswordRegistrationData, StartPasswordAuthServerResp, marshal_request,
  unmarshal_request, marshal_evaluation, unmarshal_evaluation, marshal_registration,
  unmarshal_registration, marshal_start, unmarshal_start,
}
use plissken.Common.RoundTrip.{unmarshal_request-marshal_request, unmarshal-marshal}
use plissken.Tests.Opaque.{toy, toy-Laws}
use plissken.Tests.Json.{small_engine, small_json, small-JsonLaws}
use plissken.Tests.Hex.{small_hex, small-HexLaws}

abbrev request : OprfRequestResults toy
request = record {
  username = codes "ann";
  app_token = codes "app";
  inputs = (1 ∷ 2 ∷ []) ∷ [];
  fin_data = 5;
  eval_req = (5 ∷ 1 ∷ 2 ∷ []) ∷ [];
}

unmarshal_request-marshal_request_example :
    (t : Text) × (marshal_request toy small_hex small_json request ≡ some t)
    × (unmarshal_request toy small_hex small_json t ≡ some request)
unmarshal_request-marshal_request_example =
    unmarshal_request-marshal_request toy toy-Laws small_hex small-HexLaws small_engine small_json
      small-JsonLaws request refl (omega arith, (omega arith, (omega arith, tt)))
      (omega arith, (omega arith, (omega arith, tt)))

abbrev evaluation : List Bytes
evaluation = (7 ∷ 8 ∷ []) ∷ []

abbrev registration : PasswordRegistrationData
registration = record {
  username = codes "ann";
  app_token = codes "app";
  env_u = 1 ∷ [];
  env_u_nonce = 2 ∷ [];
  pub_u = 3 ∷ [];
  salt = 4 ∷ [];
}

abbrev start : StartPasswordAuthServerResp Bytes
start = record {
  eval = evaluation;
  env_u = 1 ∷ [];
  env_u_nonce = 2 ∷ [];
  rwd_u_salt = 4 ∷ [];
  auth_nonce = 9 ∷ [];
}

unmarshal-marshal_example :
    ((t : Text) × (marshal_evaluation toy small_hex small_json evaluation ≡ some t)
      × (unmarshal_evaluation toy small_hex small_json t ≡ some evaluation))
    × ((t : Text) × (marshal_registration toy small_hex small_json registration ≡ some t)
        × (unmarshal_registration toy small_hex small_json t ≡ some registration))
    × ((t : Text) × (marshal_start toy small_hex small_json start ≡ some t)
        × (unmarshal_start toy small_hex small_json t ≡ some start))
unmarshal-marshal_example =
    unmarshal-marshal toy toy-Laws small_hex small-HexLaws small_engine small_json small-JsonLaws
      evaluation registration start (omega arith, (omega arith, (omega arith, tt)))
      (omega arith, (omega arith, (omega arith, tt)))
