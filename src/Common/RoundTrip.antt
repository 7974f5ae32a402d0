-- ===== src/Common/RoundTrip.antt =====
-- The round trips of the messages of common.go, also where a document was read and written
-- again, with its fields in another order.
use plissken.Base.{◌≡◌, refl, some, List, Text, text_eq}
use plissken.Json.{field_of}
use plissken.Js.Process.{Engine}
use plissken.Opaque.Primitives.{Primitives, Laws}
use plissken.Common.Documents.{IsAscii}
use plissken.Common.Codec.{
  Hex, HexLaws, GoJson, JsonLaws, request_document, evaluation_document, registration_document,
  start_document,
}
use plissken.Common.Messages.{
  OprfRequestResults, PasswordRegistrationData, StartPasswordAuthServerResp, marshal_request,
  unmarshal_request, marshal_evaluation, unmarshal_evaluation, marshal_registration,
  unmarshal_registration, marshal_start, unmarshal_start,
}
use plissken.Common.Marshalled.{
  marshal_request_lem, marshal_evaluation_lem, marshal_registration_lem, marshal_start_lem,
}

module _ {R : Type 0} (p : Primitives R) (laws : Laws p) (h : Hex) (hl : HexLaws h) (js : Engine)
    (g : GoJson) (jl : JsonLaws js g) where
  -- A request that was made by blinding, for an app and a user with ASCII names, is marshalled, and
  -- unmarshals to itself, although its elements are not read but made again of its inputs and blinds.
  pub unmarshal_request-marshal_request :
      (m : OprfRequestResults p)
      → p.deterministic_blind m.inputs (p.copy_blinds m.fin_data) ≡ some (m.fin_data, m.eval_req)
      → IsAscii m.username
      → IsAscii m.app_token
      → (t : Text) × (marshal_request p h g m ≡ some t) × (unmarshal_request p h g t ≡ some m)
  unfolding field_of text_eq
  unmarshal_request-marshal_request m again u a =
      let (x, t, e, stands, means) = marshal_request_lem p laws h hl js g jl m again u a in
      (t, e, means t (request_document x) stands (refl, (refl, (refl, (refl, (refl, tt))))))

  -- An evaluation, the data of a registration with ASCII names, and the server's answer to the first
  -- step of an authentication are marshalled, and each text unmarshals to the message it was made of.
  pub unmarshal-marshal :
      (els : List p.Element) (m : PasswordRegistrationData)
      (s : StartPasswordAuthServerResp p.Element)
      → IsAscii m.username
      → IsAscii m.app_token
      → ((t : Text) × (marshal_evaluation p h g els ≡ some t)
          × (unmarshal_evaluation p h g t ≡ some els))
        × ((t : Text) × (marshal_registration p h g m ≡ some t)
            × (unmarshal_registration p h g t ≡ some m))
        × ((t : Text) × (marshal_start p h g s ≡ some t) × (unmarshal_start p h g t ≡ some s))
  unfolding field_of text_eq
  unmarshal-marshal els m s u a =
      let (x₁, t₁, e₁, stands₁, means₁) = marshal_evaluation_lem p laws h hl js g jl els in
      let (x₂, t₂, e₂, stands₂, means₂) = marshal_registration_lem p laws h hl js g jl m u a in
      let (x₃, t₃, e₃, stands₃, means₃) = marshal_start_lem p laws h hl js g jl s in
      (
        (t₁, e₁, means₁ t₁ (evaluation_document x₁) stands₁ (refl, tt)),
        (
          t₂,
          e₂,
          means₂ t₂ (registration_document x₂) stands₂
              (refl, (refl, (refl, (refl, (refl, (refl, tt)))))),
        ),
        (t₃, e₃, means₃ t₃ (start_document x₃) stands₃ (refl, (refl, (refl, (refl, (refl, tt)))))),
      )
