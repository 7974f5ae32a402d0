-- ===== src/Tests/Local.antt =====
-- All parts together over small libraries: the auth server.
use plissken.Base.{◌≡◌, refl, ap, ◌==◌, if◌then◌else◌, Option, none, some, [], ◌∷◌, Text}
use plissken.Opaque.Go.{Bytes}
use plissken.Opaque.Server.{Server, new_server}
use plissken.Common.Codec.{Hex, HexLaws}
use plissken.AuthServer.Redis.{Encodings, EncodingLaws}
use plissken.Tests.Opaque.{toy, fill}
use plissken.Tests.AuthServer.{plain, plain-EncodingLaws}
use plissken.Tests.Hex.{small_hex, small-HexLaws, bytes_of, bytes_of-encode}

-- What `new_server` makes at 7.
abbrev pub own : Bytes
own = fill 32 (7 ∷ [])

abbrev pub server : Server
server = record { priv_s = own; pub_s = toy.key_gen own }

pub new_server_7 : new_server toy none 7 ≡ (some server, 8)
unfolding new_server
new_server_7 = refl

-- A text that starts with f is the key of this server.
abbrev pub decoded : Text → Option Bytes
decoded [] = some []
decoded (c ∷ t) = if c == 102 then some server.pub_s else some (bytes_of (c ∷ t))

abbrev pub local_hex : Hex
local_hex = record { encode = small_hex.encode; decode = decoded }

decoded-encode : (b : Bytes) → decoded (small_hex.encode b) ≡ some b
decoded-encode [] = refl
decoded-encode (b ∷ bs) = ap some (bytes_of-encode (b ∷ bs))

pub local-HexLaws : HexLaws local_hex
local-HexLaws = record {
  decode-encode = decoded-encode;
  encode-IsAscii = small-HexLaws.encode-IsAscii;
}

abbrev pub encodings : Encodings
encodings = record plain { hex = local_hex; decode_hex = bytes_of }

pub encodings-EncodingLaws : EncodingLaws encodings
encodings-EncodingLaws = record {
  request_kept = plain-EncodingLaws.request_kept;
  envelope_kept = plain-EncodingLaws.envelope_kept;
  hex_kept = bytes_of-encode;
}
