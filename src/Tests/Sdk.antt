-- ===== src/Tests/Sdk.antt =====
-- Runs of `run_password_auth` and `run_password_reg`, and the theorems of the SDK at them.
use plissken.Base.{◌≡◌, ◌↔◌, refl, Text, codes, text_eq, [], ◌∷◌}
use plissken.Json.{str, field_of}
use plissken.Json.Print.{to_string, decimal}
use plissken.Js.Process.{Process, ok, throw, error, response_of}
use plissken.Js.Template.{template}
use plissken.Js.Run.{Ends, run, requests}
use plissken.Sdk.Classes.{
  OprfRequestResult, StartPasswordAuthenticationData, PasswordRegistrationData, require,
  new_request_result, new_start_data, new_server_evaluation, new_registration_data, request_json,
  start_data_json, evaluation_json, registration_json, finalize_json,
}
use plissken.Sdk.Requests.{
  start_password_auth, finalize_password_auth, start_password_reg, finalize_password_reg, rethrown,
  bad_response,
}
use plissken.Sdk.Protocol.{run_password_auth, run_password_reg}
use plissken.Sdk.Authentication.{IsAuthentication, run_password_auth-IsAuthentication}
use plissken.Sdk.Registration.{IsRegistration, run_password_reg-IsRegistration}
use plissken.Sdk.Completion.{Confirms, run_password_auth-Confirms}
use plissken.Sdk.Completion.Registered.{Registers, run_password_reg-Registers}
use plissken.Sdk.Secrecy.{SameOutside, run-SameOutside}
use plissken.Sdk.Fields.{Keeps, constructors-Keeps}
use plissken.Tests.Setting.{
  engine, friendly, hostile, strings, request_document, registration_document, good_response,
}

abbrev auth : Process Text
auth =
    run_password_auth engine (codes "app") (codes "ann") (codes "pw") (codes "00")
      (codes "http://a")

abbrev reg : Process (Unit {0})
reg =
    run_password_reg engine (codes "app") (codes "ann") (codes "pw") (codes "00") (codes "http://a")

runs : Unit {0}
unfolding run run_password_auth run_password_reg start_password_auth finalize_password_auth
    start_password_reg finalize_password_reg new_request_result new_start_data new_server_evaluation
    new_registration_data require field_of text_eq request_json start_data_json evaluation_json
    registration_json finalize_json to_string requests bad_response rethrown response_of decimal
    template
runs = tt

auth_returns : (run friendly auth 0).result ≡ ok (codes "5e55")
unfolding runs
auth_returns = refl

reg_returns : (run friendly reg 0).result ≡ ok tt
unfolding runs
reg_returns = refl

-- A refusal of the first request of a registration is rewritten, and ends the run.
reg_refused :
    Ends
      (run hostile reg 0)
      (throw (
        error (
          codes "/start_password_registration route returned bad response: 400: JSON body is bad")))
      2
unfolding runs
reg_refused = record { result = refl; world = refl }

run_password_auth-IsAuthentication_example :
    IsAuthentication engine
      (codes "app")
      (codes "ann")
      (codes "pw")
      (codes "00")
      (codes "http://a")
      (run friendly auth 0).events
      (codes "5e55")
run_password_auth-IsAuthentication_example =
    run_password_auth-IsAuthentication engine (codes "app") (codes "ann") (codes "pw") (codes "00")
      (codes "http://a") friendly 0 (codes "5e55") auth_returns

run_password_reg-IsRegistration_example :
    IsRegistration engine
      (codes "app")
      (codes "ann")
      (codes "pw")
      (codes "00")
      (codes "http://a")
      (run friendly reg 0).events
run_password_reg-IsRegistration_example =
    run_password_reg-IsRegistration engine (codes "app") (codes "ann") (codes "pw") (codes "00")
      (codes "http://a") friendly 0 reg_returns

abbrev request : OprfRequestResult
request = record {
  apptoken = str (codes "app");
  username = str (codes "ann");
  inputs = strings (codes "0a" ∷ []);
  blinds = strings (codes "0b" ∷ []);
  eval_req_elements = strings (codes "0c" ∷ []);
}

abbrev start_data : StartPasswordAuthenticationData
start_data = record {
  elements = strings (codes "0d" ∷ []);
  envu = str (codes "e0");
  envu_nonce = str (codes "e1");
  rwdu_salt = str (codes "e3");
  auth_nonce = str (codes "e4");
}

abbrev registration_data : PasswordRegistrationData
registration_data = record {
  apptoken = str (codes "app");
  username = str (codes "ann");
  envu = str (codes "e0");
  envu_nonce = str (codes "e1");
  pubu = str (codes "e2");
  salt = str (codes "e3");
}

confirms :
    Confirms engine friendly
      (codes "app")
      (codes "ann")
      (codes "pw")
      (codes "00")
      (codes "http://a")
      0
      (codes "5e55")
      4
unfolding runs
confirms = record {
  made = codes "made";
  document = request_document;
  request = request;
  started = good_response;
  finalized = good_response;
  start_data = start_data;
  w₁ = 1;
  w₂ = 2;
  w₃ = 3;
  makes = refl;
  parses = refl;
  reads = refl;
  starts = refl;
  started_ok = refl;
  start_reads = refl;
  derives = refl;
  finalizes = refl;
  finalized_ok = refl;
}

registers :
    Registers engine friendly
      (codes "app")
      (codes "ann")
      (codes "pw")
      (codes "00")
      (codes "http://a")
      0
      4
unfolding runs
registers = record {
  made = codes "made";
  document = request_document;
  request = request;
  started = good_response;
  evaluation = record { elements = strings (codes "0d" ∷ []) };
  finalized = codes "finalized";
  registration = registration_document;
  registration_data = registration_data;
  accepted = good_response;
  w₁ = 1;
  w₂ = 2;
  w₃ = 3;
  makes = refl;
  parses = refl;
  reads = refl;
  starts = refl;
  start_reads = refl;
  finalizes = refl;
  finalized_parses = refl;
  finalized_reads = refl;
  accepts = refl;
  accepted_ok = refl;
}

run_password_auth-Confirms_example :
    Ends (run friendly auth 0) (ok (codes "5e55")) 4
    ↔ Confirms engine friendly
        (codes "app")
        (codes "ann")
        (codes "pw")
        (codes "00")
        (codes "http://a")
        0
        (codes "5e55")
        4
run_password_auth-Confirms_example =
    run_password_auth-Confirms engine friendly (codes "app") (codes "ann") (codes "pw") (codes "00")
      (codes "http://a") 0 4 (codes "5e55")

run_password_reg-Registers_example :
    Ends (run friendly reg 0) (ok tt) 4
    ↔ Registers engine friendly
        (codes "app")
        (codes "ann")
        (codes "pw")
        (codes "00")
        (codes "http://a")
        0
        4
run_password_reg-Registers_example =
    run_password_reg-Registers engine friendly (codes "app") (codes "ann") (codes "pw") (codes "00")
      (codes "http://a") 0 4

abbrev with_password : Text → Process Text
with_password password =
    run_password_auth engine (codes "app") (codes "ann") password (codes "00") (codes "http://a")

abbrev reg_with_password : Text → Process (Unit {0})
reg_with_password password =
    run_password_reg engine (codes "app") (codes "ann") password (codes "00") (codes "http://a")

run-SameOutside_example :
    SameOutside
      (run friendly (with_password (codes "pw")) 0)
      (run friendly (with_password (codes "other")) 0)
    × SameOutside
        (run friendly (reg_with_password (codes "pw")) 0)
        (run friendly (reg_with_password (codes "other")) 0)
run-SameOutside_example =
    run-SameOutside engine friendly 0 (codes "app") (codes "ann") (codes "pw") (codes "other")
      (codes "00") (codes "http://a") refl

abbrev KeepsAll : Type 0
KeepsAll =
    Keeps engine (codes "OprfServerEvaluation") (codes "elements" ∷ [])
      (new_server_evaluation engine) evaluation_json
    × Keeps engine (codes "OprfRequestResult")
        (codes "apptoken"
          ∷ codes "username"
          ∷ codes "inputs"
          ∷ codes "blinds"
          ∷ codes "eval_req_elements"
          ∷ [])
        (new_request_result engine) request_json
    × Keeps engine (codes "StartPasswordAuthenticationData")
        (codes "elements"
          ∷ codes "envu"
          ∷ codes "envu_nonce"
          ∷ codes "rwdu_salt"
          ∷ codes "auth_nonce"
          ∷ [])
        (new_start_data engine) start_data_json
    × Keeps engine (codes "PasswordRegistrationData")
        (codes "apptoken"
          ∷ codes "username"
          ∷ codes "envu"
          ∷ codes "envu_nonce"
          ∷ codes "pubu"
          ∷ codes "salt"
          ∷ [])
        (new_registration_data engine) registration_json

constructors-Keeps_example : KeepsAll
constructors-Keeps_example = constructors-Keeps engine
