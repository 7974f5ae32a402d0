-- ===== src/Tests/Setting.antt =====
-- An engine that knows two texts, and an environment in which all goes well: its state counts what
-- it has been asked.
use plissken.Base.{ℕ, suc, none, some, Text, codes, text_eq, if◌then◌else◌, List, [], ◌∷◌}
use plissken.Json.{Json, str, arr, obj, Items, nil, cons, end, field}
use plissken.Json.Print.{to_string}
use plissken.Js.Process.{
  Engine, ok, throw, HttpResponse, Call, make_oprf_request, finalize_password_registration,
  finalize_password_authentication, date_now, axios_error,
}
use plissken.Js.Run.{Env}

abbrev items : List Text → Items
items [] = nil
items (s ∷ r) = cons (str s) (items r)

abbrev pub strings : List Text → Json
strings ss = arr (items ss)

abbrev pub request_document : Json
request_document = obj (
    field (codes "username") (str (codes "ann")) (
      field (codes "apptoken") (str (codes "app")) (
        field (codes "inputs") (strings (codes "0a" ∷ [])) (
          field (codes "blinds") (strings (codes "0b" ∷ []))
            (field (codes "eval_req_elements") (strings (codes "0c" ∷ [])) end)))))

abbrev pub registration_document : Json
registration_document = obj (
    field (codes "username") (str (codes "ann")) (
      field (codes "apptoken") (str (codes "app")) (
        field (codes "envu") (str (codes "e0")) (
          field (codes "envu_nonce") (str (codes "e1")) (
            field (codes "pubu") (str (codes "e2"))
              (field (codes "salt") (str (codes "e3")) end))))))

-- What the server answers to both first requests.
abbrev pub answer_document : Json
answer_document = obj (
    field (codes "elements") (strings (codes "0d" ∷ [])) (
      field (codes "envu") (str (codes "e0")) (
        field (codes "envu_nonce") (str (codes "e1")) (
          field (codes "rwdu_salt") (str (codes "e3"))
            (field (codes "auth_nonce") (str (codes "e4")) end)))))

-- `parse` knows two texts; an object is written as the names of its fields.
abbrev pub engine : Engine
engine = record {
  parse = λ t. ok (if text_eq t (codes "made") then request_document else registration_document);
  stringify = λ v. elim (to_string v) [ some t ↦ t | none ↦ [] ];
  in_failure = λ k v. codes "Cannot use 'in' operator";
  no_primitive = codes "Cannot convert object to primitive value";
  utc_string = λ v. codes "Fri, 15 Apr 2022";
}

abbrev answers : Call → Text
answers (make_oprf_request a u p) = codes "made"
answers (finalize_password_registration a u r e k) = codes "finalized"
answers (finalize_password_authentication u r d k) = codes "5e55"
answers date_now = codes "1650000000000"

abbrev pub good_response : HttpResponse
good_response = record { status = 200; body = answer_document }

abbrev pub friendly : Env ℕ
friendly = record {
  http = λ q n. (ok good_response, suc n);
  bindings = λ c n. (ok (answers c), suc n);
}

-- A server that refuses everything, as axios reports it.
abbrev pub refusal : HttpResponse
refusal = record { status = 400; body = str (codes "JSON body is bad") }

abbrev pub hostile : Env ℕ
hostile = record {
  http = λ q n.
      (throw (axios_error (codes "Request failed with status code 400") (some refusal)), suc n);
  bindings = λ c n. (ok (answers c), suc n);
}
