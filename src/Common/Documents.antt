-- ===== src/Common/Documents.antt =====
-- The JSON objects that are exchanged: each field holds a text or a list of texts.
use plissken.Base.{
  ◌<◌, ◌≡◌, Bool, true, false, ◌&&◌, List, [], ◌∷◌, some, Text, text_eq, leb, ◌==◌, ◌||◌,
  if◌then◌else◌,
}
use plissken.Json.{Json, str, arr, obj, Items, nil, cons, Fields, end, field, field_of}

pub data Cell : Type 0 where
  one : Text → Cell
  many : List Text → Cell

abbrev pub Document : Type 0
Document = List (Text × Cell)

abbrev pub items : List Text → Items
items [] = nil
items (s ∷ ss) = cons (str s) (items ss)

abbrev pub cell_json : Cell → Json
cell_json (one s) = str s
cell_json (many ss) = arr (items ss)

abbrev pub fields : Document → Fields
fields [] = end
fields ((k, c) ∷ d) = field k (cell_json c) (fields d)

abbrev pub document_json : Document → Json
document_json d = obj (fields d)

-- The fields hold what the document says, whatever their order.
abbrev pub Agrees : Fields → Document → Type 0
Agrees fs [] = Unit {0}
Agrees fs ((k, c) ∷ d) = (field_of k fs ≡ some (cell_json c)) × Agrees fs d

-- A text that is the same in bytes and in UTF-16, and that encodings keep.
abbrev pub IsAscii : Text → Type 0
IsAscii [] = Unit {0}
IsAscii (c ∷ s) = (c < 128) × IsAscii s

abbrev pub AllAscii : List Text → Type 0
AllAscii [] = Unit {0}
AllAscii (s ∷ ss) = IsAscii s × AllAscii ss

abbrev pub IsAsciiCell : Cell → Type 0
IsAsciiCell (one s) = IsAscii s
IsAsciiCell (many ss) = AllAscii ss

abbrev pub IsAsciiDocument : Document → Type 0
IsAsciiDocument [] = Unit {0}
IsAsciiDocument ((k, c) ∷ d) = IsAsciiCell c × IsAsciiDocument d

-- Keys of small letters and underscores, no two of them the same.
abbrev is_key_text : Text → Bool
is_key_text [] = true
is_key_text (c ∷ k) = ((leb b'a' c && leb c b'z') || c == b'_') && is_key_text k

abbrev is_new : Text → Document → Bool
is_new k [] = true
is_new k ((j, c) ∷ d) = (if text_eq j k then false else true) && is_new k d

unfoldable pub has_proper_keys : Document → Bool
unfolding text_eq
has_proper_keys [] = true
has_proper_keys ((k, c) ∷ d) = is_key_text k && is_new k d && has_proper_keys d
