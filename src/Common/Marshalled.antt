-- ===== src/Common/Marshalled.antt =====
-- What is marshalled, what stands for it, and what unmarshals to it again.
use plissken.Base.{◌≡◌, refl, Option, some, List, [], ◌∷◌, map, Text}
use plissken.Js.Process.{Engine}
use plissken.Opaque.Go.{Bytes}
use plissken.Opaque.Primitives.{Primitives, Laws}
use plissken.Common.Documents.{IsAscii, AllAscii, IsAsciiDocument, has_proper_keys}
use plissken.Common.Codec.{
  Hex, HexLaws, GoJson, JsonLaws, Stands, Means, InnerOprfRequestResults, InnerOprfServerEvaluation,
  InnerPasswordRegistrationData, InnerStartPasswordAuthServerResp, request_document,
  evaluation_document, registration_document, start_document,
}
use plissken.Common.Messages.{
  ◌>>=◌, each, OprfRequestResults, PasswordRegistrationData, StartPasswordAuthServerResp,
  marshal_elements, unmarshal_elements, marshal_request, unmarshal_request, marshal_evaluation,
  unmarshal_evaluation, marshal_registration, unmarshal_registration, marshal_start,
  unmarshal_start,
}

each_lem :
    {A : Type 0} (f : A → Option Text) (g : Text → Option A)
    → ((a : A) → (t : Text) × (f a ≡ some t) × (g t ≡ some a) × IsAscii t)
    → (l : List A) → (ts : List Text) × (each f l ≡ some ts) × (each g ts ≡ some l) × AllAscii ts
unfolding each
each_lem f g h [] = ([], refl, refl, tt)
each_lem f g h (a ∷ l) =
    let (t, e, e', p) = h a in
    let (ts, es, es', ps) = each_lem f g h l in (t ∷ ts, rw (e, es), rw (e', es'), (p, ps))

module _ {R : Type 0} (p : Primitives R) (laws : Laws p) (h : Hex) (hl : HexLaws h) (js : Engine)
    (g : GoJson) (jl : JsonLaws js g) where
  each-decode :
      (bs : List Bytes) → (each h.decode (map h.encode bs) ≡ some bs) × AllAscii (map h.encode bs)
  unfolding each
  each-decode [] = (refl, tt)
  each-decode (b ∷ bs) =
      let (e, q) = each-decode bs in (rw (hl.decode-encode b, e), (hl.encode-IsAscii b, q))

  elements_lem :
      (els : List p.Element)
      → (ts : List Text) × (marshal_elements p h g els ≡ some ts)
        × (unmarshal_elements p h g ts ≡ some els)
        × AllAscii ts
  unfolding marshal_elements unmarshal_elements
  elements_lem els =
      each_lem _ _
        (λ el.
          let (b, e, e') = laws.element_kept el in
          (h.encode b, rw e, rw (hl.decode-encode b, e'), hl.encode-IsAscii b))
        els

  pub marshal_request_lem :
      (m : OprfRequestResults p)
      → p.deterministic_blind m.inputs (p.copy_blinds m.fin_data) ≡ some (m.fin_data, m.eval_req)
      → IsAscii m.username
      → IsAscii m.app_token
      → (x : InnerOprfRequestResults) × (t : Text) × (marshal_request p h g m ≡ some t)
        × Stands js t (request_document x)
        × Means js (unmarshal_request p h g) (request_document x) m
  unfolding marshal_request unmarshal_request has_proper_keys
  marshal_request_lem m again ascii_u ascii_a =
      let (blinds, e₁, e₂, q₁) =
        each_lem (λ bl. do sbl ← p.marshal_scalar bl; some (h.encode sbl))
          (λ sbl. do b ← h.decode sbl; p.unmarshal_scalar b)
          (λ bl.
            let (b, e, e') = laws.scalar_kept bl in
            (h.encode b, rw e, rw (hl.decode-encode b, e'), hl.encode-IsAscii b))
          (p.copy_blinds m.fin_data) in
      let (els, e₃, _, q₂) = elements_lem m.eval_req in
      let (e₄, q₃) = each-decode m.inputs in
      let x : InnerOprfRequestResults = record {
        username = m.username;
        app_token = m.app_token;
        hex_encoded_inputs = map h.encode m.inputs;
        hex_encoded_blinds = blinds;
        hex_encoded_eval_req_elements = els;
      } in
      let ascii : IsAsciiDocument (request_document x) =
        (ascii_u, (ascii_a, (q₃, (q₁, (q₂, tt))))) in
      let (t, e₅, e₆) = jl.marshal_some (request_document x) refl ascii in
      (
        x,
        t,
        rw (e₁, e₃, e₅),
        record { parses = e₆; proper = refl; ascii = ascii },
        λ t' d stands agrees. rw (jl.unmarshal_request_some t' d x stands agrees, e₄, e₂, again),
      )

  pub marshal_evaluation_lem :
      (els : List p.Element)
      → (x : InnerOprfServerEvaluation) × (t : Text) × (marshal_evaluation p h g els ≡ some t)
        × Stands js t (evaluation_document x)
        × Means js (unmarshal_evaluation p h g) (evaluation_document x) els
  unfolding marshal_evaluation unmarshal_evaluation has_proper_keys
  marshal_evaluation_lem els =
      let (ts, e₁, e₂, q) = elements_lem els in
      let x : InnerOprfServerEvaluation = record { hex_encoded_elements = ts } in
      let ascii : IsAsciiDocument (evaluation_document x) = (q, tt) in
      let (t, e₃, e₄) = jl.marshal_some (evaluation_document x) refl ascii in
      (
        x,
        t,
        rw (e₁, e₃),
        record { parses = e₄; proper = refl; ascii = ascii },
        λ t' d stands agrees. rw (jl.unmarshal_evaluation_some t' d x stands agrees, e₂),
      )

  pub marshal_registration_lem :
      (m : PasswordRegistrationData)
      → IsAscii m.username
      → IsAscii m.app_token
      → (x : InnerPasswordRegistrationData) × (t : Text) × (marshal_registration p h g m ≡ some t)
        × Stands js t (registration_document x)
        × Means js (unmarshal_registration p h g) (registration_document x) m
  unfolding marshal_registration unmarshal_registration has_proper_keys
  marshal_registration_lem m ascii_u ascii_a =
      let x : InnerPasswordRegistrationData = record {
        username = m.username;
        app_token = m.app_token;
        hex_encoded_env_u = h.encode m.env_u;
        hex_encoded_env_u_nonce = h.encode m.env_u_nonce;
        hex_encoded_pub_u = h.encode m.pub_u;
        hex_encoded_salt = h.encode m.salt;
      } in
      let ascii : IsAsciiDocument (registration_document x) = (
        ascii_u,
        (
          ascii_a,
          (
            hl.encode-IsAscii m.env_u,
            (
              hl.encode-IsAscii m.env_u_nonce,
              (hl.encode-IsAscii m.pub_u, (hl.encode-IsAscii m.salt, tt)),
            ),
          ),
        ),
      ) in
      let (t, e₁, e₂) = jl.marshal_some (registration_document x) refl ascii in
      (
        x,
        t,
        e₁,
        record { parses = e₂; proper = refl; ascii = ascii },
        λ t' d stands agrees. rw (
          jl.unmarshal_registration_some t' d x stands agrees,
          hl.decode-encode m.env_u,
          hl.decode-encode m.env_u_nonce,
          hl.decode-encode m.pub_u,
          hl.decode-encode m.salt,
        ),
      )

  pub marshal_start_lem :
      (m : StartPasswordAuthServerResp p.Element)
      → (x : InnerStartPasswordAuthServerResp) × (t : Text) × (marshal_start p h g m ≡ some t)
        × Stands js t (start_document x)
        × Means js (unmarshal_start p h g) (start_document x) m
  unfolding marshal_start unmarshal_start has_proper_keys
  marshal_start_lem m =
      let (ts, e₁, e₂, q) = elements_lem m.eval in
      let x : InnerStartPasswordAuthServerResp = record {
        hex_encoded_elements = ts;
        hex_encoded_env_u = h.encode m.env_u;
        hex_encoded_env_u_nonce = h.encode m.env_u_nonce;
        hex_encoded_rwd_u_salt = h.encode m.rwd_u_salt;
        hex_encoded_auth_nonce = h.encode m.auth_nonce;
      } in
      let ascii : IsAsciiDocument (start_document x) = (
        q,
        (
          hl.encode-IsAscii m.env_u,
          (
            hl.encode-IsAscii m.env_u_nonce,
            (hl.encode-IsAscii m.rwd_u_salt, (hl.encode-IsAscii m.auth_nonce, tt)),
          ),
        ),
      ) in
      let (t, e₃, e₄) = jl.marshal_some (start_document x) refl ascii in
      (
        x,
        t,
        rw (e₁, e₃),
        record { parses = e₄; proper = refl; ascii = ascii },
        λ t' d stands agrees. rw (
          jl.unmarshal_start_some t' d x stands agrees,
          e₂,
          hl.decode-encode m.env_u,
          hl.decode-encode m.env_u_nonce,
          hl.decode-encode m.rwd_u_salt,
          hl.decode-encode m.auth_nonce,
        ),
      )
