-- ===== src/Wire/Tests.antt =====
-- Tests of the wire on concrete frames, and the theorems at concrete inputs.
use sofmat.Base.{
  ℕ, ◌+◌, ◌*◌, ◌%◌, ◌^◌, ◌≤◌, ◌≡◌, refl, List, [], ◌∷◌, ◌++◌, map, false, arith, length, replicate,
  ok, take, drop,
}
use sofmat.Wire.Bytes.{put_be, from_be_acc, bytes_eq, uint_at}
use sofmat.Wire.Framing.{
  ActivationHeader, dtype_size, shape_product, expected_bytes, validate_dims, validate_shape,
  put_shape, activation_bytes, encode_activation, read_shape, check_prefix, decode_body,
  decode_activation, frame_control, decode_control,
}
use sofmat.Wire.Framing.RoundTrip
use sofmat.Wire.Framing.Canonical
use sofmat.Wire.Framing.Size
use sofmat.Wire.Framing.Shape
use sofmat.Wire.Framing.Size.{elements}
use sofmat.Wire.Auth.{sign}
use sofmat.Wire.Transport.{
  TcpTransport, new, send_frame, recv_frame, control, server_handshake, client_handshake,
  recv_activation,
}
use sofmat.Wire.Transport.Frames
use sofmat.Wire.Transport.Frames.{wire}
use sofmat.Wire.Transport.Handshake
use sofmat.Wire.Transport.Handshake.{control_bytes}
use sofmat.Wire.Handoff.{send_kv, recv_kv, Message, hex, header}
use sofmat.Wire.Handoff.Verified
use sofmat.Wire.Handoff.Tcp
use sofmat.Wire.Handoff.Tcp.{tcp}

codec : Unit {0}
unfolding put_be from_be_acc bytes_eq dtype_size shape_product expected_bytes validate_dims
    validate_shape put_shape activation_bytes encode_activation read_shape check_prefix decode_body
    decode_activation frame_control decode_control
codec = tt

abbrev three_bytes : ActivationHeader
three_bytes = record { stage_id = 1; token_index = 2; dtype = 5; shape = 3 ∷ [] }

abbrev payload : List ℕ
payload = 7 ∷ 8 ∷ 9 ∷ []

abbrev frame_of_three : List ℕ
frame_of_three =
    83 ∷ 79 ∷ 70 ∷ 77 ∷ 1 ∷ 1 ∷ 0 ∷ 0 ∷ 0 ∷ 1 ∷ 0 ∷ 0 ∷ 0 ∷ 2 ∷ 5 ∷ 1 ∷ 0 ∷ 0 ∷ 0 ∷ 3 ∷ 0 ∷ 0 ∷ 0
    ∷ 0 ∷ 0 ∷ 0 ∷ 0 ∷ 3 ∷ 7 ∷ 8 ∷ 9 ∷ []

encoded : encode_activation three_bytes payload ≡ ok frame_of_three
unfolding codec
encoded = refl

decoded : decode_activation frame_of_three 100 ≡ ok (three_bytes, payload)
unfolding codec
decoded = refl

decode-encode_example : decode_activation frame_of_three 100 ≡ ok (three_bytes, payload)
decode-encode_example =
    RoundTrip.decode-encode three_bytes payload frame_of_three 100
      (record { stage = omega arith; token = omega arith }) (omega arith) (omega arith) encoded

encode-decode_example : encode_activation three_bytes payload ≡ ok frame_of_three
encode-decode_example =
    Canonical.encode-decode frame_of_three 100 three_bytes payload (omega arith) (omega arith)
      (omega arith) decoded

decode_exact_example : (length payload ≡ 1 * elements (3 ∷ [])) × (length payload ≤ 100)
decode_exact_example =
    Size.decode_exact frame_of_three 100 1 three_bytes payload (omega arith) (omega arith)
      (omega arith) Size.uint8-size (omega arith) decoded

-- 2 ^ 24 * 2 ^ 24 * 2 ^ 16 bytes.
abbrev huge : ActivationHeader
huge = record { stage_id = 1; token_index = 2; dtype = 5; shape = 2 ^ 24 ∷ 2 ^ 24 ∷ 2 ^ 16 ∷ [] }

decode_overflow_example : decode_activation (activation_bytes huge []) 100 ≡ ok (huge, [])
decode_overflow_example =
    Size.decode_overflow huge 1 100 (record { stage = omega arith; token = omega arith })
      Size.uint8-size (omega arith) (omega arith) (omega arith) refl

abbrev blob : List ℕ
blob = 1 ∷ 2 ∷ 3 ∷ 4 ∷ 5 ∷ []

-- A stand-in for HMAC-SHA256.
abbrev hmac : List ℕ → List ℕ → List ℕ
hmac token nonce = map (λ b. (b + length token) % 256) nonce

abbrev token : List ℕ
token = 1 ∷ 2 ∷ []

abbrev nonce : List ℕ
nonce = replicate 32 7

abbrev limits : TcpTransport
limits = record {
  inbox = [];
  outbox = [];
  broken = false;
  max_frame_bytes = 2 ^ 20 + 512;
  max_payload = 2 ^ 20;
}

new_one_mib : new [] 1 ≡ limits
unfolding new
new_one_mib = refl

abbrev server : TcpTransport
server = record limits { inbox = wire (control_bytes 3 (hmac token nonce)) ++ [] }

abbrev client : TcpTransport
client = record limits { inbox = wire (control_bytes 2 nonce) ++ (wire (control_bytes 4 []) ++ []) }

abbrev served : TcpTransport
served = record limits {
  outbox = ([] ++ wire (control_bytes 2 nonce)) ++ wire (control_bytes 4 []);
}

abbrev joined : TcpTransport
joined = record limits { outbox = [] ++ wire (control_bytes 3 (hmac token nonce)) }

handshake_agree_example :
    (server_handshake hmac token nonce server ≡ (ok tt, served))
    × (client_handshake hmac token client ≡ (ok tt, joined))
handshake_agree_example =
    Handshake.handshake_agree hmac token nonce server client (omega arith) refl (omega arith)
      (record { word = omega arith; payload_word = omega arith })
      (record { word = omega arith; payload_word = omega arith }) (omega arith) (omega arith) refl
      refl refl refl

server_sound_example :
    (raw : List ℕ) × (body : List ℕ) × (s : TcpTransport) × (s' : TcpTransport) × (send_frame
        (control 2 nonce)
        server
      ≡ (ok tt, s))
    × (recv_frame s ≡ (ok raw, s'))
    × (decode_control raw ≡ ok (3, body))
    × (sign hmac token nonce ≡ ok body)
server_sound_example =
    Handshake.server_sound hmac token nonce server served handshake_agree_example.0

abbrev sum256 : List ℕ → List ℕ
sum256 blob = replicate 32 (length blob % 256)

send_kv-recv_kv_example :
    (t : TcpTransport) × (u : TcpTransport) × (send_kv tcp sum256 9 blob 2 limits
      ≡ (ok (hex (replicate 32 5)), t))
    × (recv_kv tcp sum256 1000 (record limits { inbox = t.outbox }) ≡ (ok (9, blob), u))
send_kv-recv_kv_example =
    Tcp.send_kv-recv_kv sum256 9 2 1000 blob limits limits refl (omega arith) (omega arith)
      (omega arith) (omega arith) (omega arith) refl refl
      (record { slack = refl; small = omega arith }) refl (omega arith) (omega arith) (omega arith)

-- The receiver of that hand-off.
abbrev arrived : TcpTransport
arrived = record limits { inbox = send_kv-recv_kv_example.0.outbox }

recv_kv_sound_example :
    (m : Message) × (u : TcpTransport) × (recv_activation arrived ≡ (ok m, u))
    × (m.0.stage_id ≡ 0xFFFE)
    × (m.0.token_index ≡ 9)
    × (length blob ≡ uint_at 8 0 m.1)
    × (sum256 blob ≡ take 32 (drop 12 m.1))
recv_kv_sound_example =
    Verified.recv_kv_sound tcp sum256 1000 9 blob arrived send_kv-recv_kv_example.1
      send_kv-recv_kv_example.3

-- A manifest that declares 2 ^ 63 bytes.
abbrev bomb : List ℕ
bomb = 128 ∷ replicate 43 0

abbrev threatened : TcpTransport
threatened = record limits { inbox = wire (activation_bytes (header 0xFFFE 9 bomb) bomb) ++ [] }

bomb_received : recv_activation threatened ≡ (ok (header 0xFFFE 9 bomb, bomb), limits)
bomb_received =
    Frames.recv_activation-wire (header 0xFFFE 9 bomb) bomb
      (activation_bytes (header 0xFFFE 9 bomb) bomb) [] threatened
      (record { word = omega arith; payload_word = omega arith })
      (record { stage = omega arith; token = omega arith }) bomb_encoded (omega arith) (omega arith)
      (omega arith) refl
  where
    bomb_encoded :
        encode_activation (header 0xFFFE 9 bomb) bomb
        ≡ ok (activation_bytes (header 0xFFFE 9 bomb) bomb)
    bomb_encoded =
        RoundTrip.ok-encode_activation (header 0xFFFE 9 bomb) bomb
          (Shape.ok-validate_shape (44 ∷ []) (omega arith) (omega arith))
          (Size.expected_bytes-some (header 0xFFFE 9 bomb) 1 Size.uint8-size)

bomb_total : uint_at 8 0 bomb ≡ 2 ^ 63
unfolding from_be_acc
bomb_total = refl

-- A peer that answers with the signature of another token.
abbrev impostor : TcpTransport
impostor = record limits { inbox = wire (control_bytes 3 nonce) ++ [] }

recv_activation-wire_example :
    recv_activation (record limits { inbox = wire frame_of_three ++ 1 ∷ [] })
    ≡ (ok (three_bytes, payload), record limits { inbox = 1 ∷ [] })
recv_activation-wire_example =
    Frames.recv_activation-wire three_bytes payload frame_of_three (1 ∷ [])
      (record limits { inbox = wire frame_of_three ++ 1 ∷ [] })
      (record { word = omega arith; payload_word = omega arith })
      (record { stage = omega arith; token = omega arith }) encoded (omega arith) (omega arith)
      (omega arith) refl
