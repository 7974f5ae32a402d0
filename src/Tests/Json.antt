-- ===== src/Tests/Json.antt =====
-- A JSON that is enough to satisfy the laws.
use plissken.Base.{
  ℕ, zero, suc, ◌≡◌, refl, Option, none, some, List, [], ◌∷◌, ◌++◌, append_assoc, append-nil, Text,
  codes, ◌==◌, if◌then◌else◌,
}
use plissken.Json.{Json, null, str, arr, obj, Items, nil, cons, Fields, end, field, field_of}
use plissken.Js.Process.{Engine, Result, ok, throw, syntax_error}
use plissken.Common.Documents.{Document, one, many, items, fields, document_json}
use plissken.Common.Messages.{◌>>=◌}
use plissken.Common.Codec.{GoJson, JsonLaws}

-- A field is 0 and its key, then 1 and a text, or 2 and a list, in which a text follows each 3. The
-- characters of the texts are moved up by 4.
abbrev moved : Text → Text
moved [] = []
moved (c ∷ t) = suc (suc (suc (suc c))) ∷ moved t

abbrev item_text : Json → Text
item_text (str s) = 3 ∷ moved s
item_text _ = []

abbrev items_text : Items → Text
items_text nil = []
items_text (cons j l) = item_text j ++ items_text l

abbrev cell_text : Json → Text
cell_text (str s) = 1 ∷ moved s
cell_text (arr l) = 2 ∷ items_text l
cell_text _ = []

abbrev fields_text : Fields → Text
fields_text end = []
fields_text (field k j fs) = 0 ∷ moved k ++ (cell_text j ++ fields_text fs)

abbrev object_text : Json → Text
object_text (obj fs) = 123 ∷ fields_text fs
object_text _ = []

-- What has been read of a text, from its end.
record Read : Type 0 where
  text : Text
  items : Items
  cell : Json
  fields : Fields

abbrev step : ℕ → Read → Read
step zero s = record { text = []; items = nil; cell = null; fields = field s.text s.cell s.fields }
step (suc zero) s = record { text = []; items = nil; cell = str s.text; fields = s.fields }
step (suc (suc zero)) s = record { text = []; items = nil; cell = arr s.items; fields = s.fields }
step (suc (suc (suc zero))) s = record {
  text = [];
  items = cons (str s.text) s.items;
  cell = s.cell;
  fields = s.fields;
}
step (suc (suc (suc (suc c)))) s = record {
  text = c ∷ s.text;
  items = s.items;
  cell = s.cell;
  fields = s.fields;
}

abbrev read : Text → Read
read [] = record { text = []; items = nil; cell = null; fields = end }
read (c ∷ t) = step c (read t)

abbrev parsed : Text → Result Json
parsed [] = throw (syntax_error (codes "Unexpected end of JSON input"))
parsed (c ∷ t) =
    if c == 123
    then ok (obj (read t).fields)
    else throw (syntax_error (codes "Unexpected token in JSON"))

abbrev pub small_engine : Engine
small_engine = record {
  parse = parsed;
  stringify = object_text;
  in_failure = λ k v. codes "Cannot use 'in' operator";
  no_primitive = codes "Cannot convert object to primitive value";
  utc_string = λ v. codes "Fri, 15 Apr 2022";
}

read-moved :
    (s t : Text)
    → read (moved s ++ t) ≡ record {
      text = s ++ (read t).text;
      items = (read t).items;
      cell = (read t).cell;
      fields = (read t).fields;
    }
read-moved [] t = refl
read-moved (c ∷ s) t = rw (read-moved s t)

record IsStart (s : Read) : Type 0 where
  text : s.text ≡ []
  items : s.items ≡ nil

read-items :
    (ss : List Text) (t : Text)
    → IsStart (read t)
    → read (items_text (items ss) ++ t)
      ≡ record { text = []; items = items ss; cell = (read t).cell; fields = (read t).fields }
read-items [] t h = λ i. record {
  text = h.text i;
  items = h.items i;
  cell = (read t).cell;
  fields = (read t).fields;
}
read-items (s ∷ ss) t h = rw (
  append_assoc (moved s) (items_text (items ss)) t,
  read-moved s (items_text (items ss) ++ t),
  read-items ss t h,
  append-nil s,
)

read-fields :
    (d : Document)
    → read (fields_text (fields d))
      ≡ record { text = []; items = nil; cell = null; fields = fields d }
read-fields [] = refl
read-fields ((k, one s) ∷ d) =
    let t = fields_text (fields d) in
    rw (read-moved k (1 ∷ moved s ++ t), read-moved s t, read-fields d, append-nil s, append-nil k)
read-fields ((k, many ss) ∷ d) =
    let t = fields_text (fields d) in
    let e = read-fields d in
    let h : IsStart (read t) = record { text = rw e; items = rw e } in
    rw (read-moved k (2 ∷ items_text (items ss) ++ t), read-items ss t h, e, append-nil k)

parsed_lem : (d : Document) → parsed (object_text (document_json d)) ≡ ok (document_json d)
parsed_lem d = rw (read-fields d)

abbrev text_of : Option Json → Option Text
text_of (some (str s)) = some s
text_of _ = none

abbrev texts_of : Items → Option (List Text)
texts_of nil = some []
texts_of (cons (str s) l) = do ss ← texts_of l; some (s ∷ ss)
texts_of (cons _ l) = none

abbrev list_of : Option Json → Option (List Text)
list_of (some (arr l)) = texts_of l
list_of _ = none

texts_of-items : (ss : List Text) → texts_of (items ss) ≡ some ss
texts_of-items [] = refl
texts_of-items (s ∷ ss) = rw (texts_of-items ss)

abbrev with_fields : {A : Type 0} → Result Json → (Fields → Option A) → Option A
with_fields (ok (obj fs)) f = f fs
with_fields _ f = none

abbrev pub small_json : GoJson
small_json = record {
  marshal = λ d. some (object_text (document_json d));
  unmarshal_request = λ t. with_fields (parsed t) λ fs. do
    u ← text_of (field_of (codes "username") fs)
    a ← text_of (field_of (codes "apptoken") fs)
    inputs ← list_of (field_of (codes "inputs") fs)
    blinds ← list_of (field_of (codes "blinds") fs)
    els ← list_of (field_of (codes "eval_req_elements") fs)
    some (record {
      username = u;
      app_token = a;
      hex_encoded_inputs = inputs;
      hex_encoded_blinds = blinds;
      hex_encoded_eval_req_elements = els;
    });
  unmarshal_evaluation = λ t. with_fields (parsed t) λ fs. do
    els ← list_of (field_of (codes "elements") fs)
    some (record { hex_encoded_elements = els });
  unmarshal_registration = λ t. with_fields (parsed t) λ fs. do
    u ← text_of (field_of (codes "username") fs)
    a ← text_of (field_of (codes "apptoken") fs)
    env_u ← text_of (field_of (codes "envu") fs)
    nonce ← text_of (field_of (codes "envu_nonce") fs)
    pub_u ← text_of (field_of (codes "pubu") fs)
    salt ← text_of (field_of (codes "salt") fs)
    some (record {
      username = u;
      app_token = a;
      hex_encoded_env_u = env_u;
      hex_encoded_env_u_nonce = nonce;
      hex_encoded_pub_u = pub_u;
      hex_encoded_salt = salt;
    });
  unmarshal_start = λ t. with_fields (parsed t) λ fs. do
    els ← list_of (field_of (codes "elements") fs)
    env_u ← text_of (field_of (codes "envu") fs)
    nonce ← text_of (field_of (codes "envu_nonce") fs)
    salt ← text_of (field_of (codes "rwdu_salt") fs)
    auth_nonce ← text_of (field_of (codes "auth_nonce") fs)
    some (record {
      hex_encoded_elements = els;
      hex_encoded_env_u = env_u;
      hex_encoded_env_u_nonce = nonce;
      hex_encoded_rwd_u_salt = salt;
      hex_encoded_auth_nonce = auth_nonce;
    });
  unmarshal_finalize = λ t. with_fields (parsed t) λ fs. do
    u ← text_of (field_of (codes "username") fs)
    a ← text_of (field_of (codes "apptoken") fs)
    token ← text_of (field_of (codes "session_token") fs)
    some (record { username = u; app_token = a; session_token = token });
}

pub small-JsonLaws : JsonLaws small_engine small_json
small-JsonLaws = record {
  parse-stringify = λ d _ _. parsed_lem d;
  marshal_some = λ d _ _. (object_text (document_json d), refl, parsed_lem d);
  unmarshal_request_some = λ t d x stands a. rw (
    stands.parses,
    a.0,
    a.1.0,
    a.1.1.0,
    texts_of-items x.hex_encoded_inputs,
    a.1.1.1.0,
    texts_of-items x.hex_encoded_blinds,
    a.1.1.1.1.0,
    texts_of-items x.hex_encoded_eval_req_elements,
  );
  unmarshal_evaluation_some =
      λ t d x stands a. rw (stands.parses, a.0, texts_of-items x.hex_encoded_elements);
  unmarshal_registration_some = λ t d x stands a.
      rw (stands.parses, a.0, a.1.0, a.1.1.0, a.1.1.1.0, a.1.1.1.1.0, a.1.1.1.1.1.0);
  unmarshal_start_some = λ t d x stands a. rw (
    stands.parses,
    a.0,
    texts_of-items x.hex_encoded_elements,
    a.1.0,
    a.1.1.0,
    a.1.1.1.0,
    a.1.1.1.1.0,
  );
  unmarshal_finalize_some = λ t d x stands a. rw (stands.parses, a.0, a.1.0, a.1.1.0);
}
