-- ===== src/Wire/Transport.antt =====
-- internal/transport/transport.go: frames with a length prefix over a TCP connection, and the
-- handshake that runs before any other frame. A connection is the bytes that wait to be read and the
-- bytes written; a write on a broken connection fails, and a read past the waiting bytes is an EOF.
pub mod Frames
pub mod Handshake
use sofmat.Base.{
  ℕ, ◌+◌, ◌*◌, ◌^◌, ◌%◌, List, [], ◌∷◌, ◌++◌, Bool, true, false, not, ◌==◌, ltb, ◌&&◌,
  if◌then◌else◌, length, take, drop, Result, ok, err, int_lt, int_mul, int_add,
}
use sofmat.Base.Effects.{Act, bind_result, ◌>>=◌, ◌>>◌, return, fail, of_result}
use sofmat.Wire.Bytes.{put_be, from_be, uint_at}
use sofmat.Wire.Framing.{
  FrameError, ActivationHeader, encode_activation, decode_activation, frame_control, decode_control,
  msg_auth_challenge, msg_auth_response, msg_ack, msg_error,
}
use sofmat.Wire.Auth.{AuthError, sign, verify}

pub data TransportError : Type 0 where
  frame : FrameError → TransportError
  auth : AuthError → TransportError
  send_failed recv_len_failed recv_frame_failed over_frame_cap : TransportError
  no_challenge peer_rejected master_rejected : TransportError

pub record TcpTransport : Type 0 where
  pub inbox : List ℕ
  pub outbox : List ℕ
  pub broken : Bool
  pub max_frame_bytes : ℕ
  pub max_payload : ℕ

abbrev pub header_slack : ℕ
header_slack = 512

-- `New`, over the bytes that wait; the limit is in MiB, an `int`.
unfoldable pub new : List ℕ → ℕ → TcpTransport
new inbox max_activation_mb =
    let mb : ℕ = if int_lt 0 max_activation_mb then max_activation_mb else 8 in
    let mp = int_mul (int_mul mb 1024) 1024 in
    record {
      inbox = inbox;
      outbox = [];
      broken = false;
      max_frame_bytes = int_add mp header_slack;
      max_payload = mp;
    }

-- A step on the transport: its result, and the transport behind it, also on an error.
abbrev pub M : Type 0 → Type 0
M = Act TransportError TcpTransport

-- `conn.Write`.
write : List ℕ → M (Unit {0})
write bytes t =
    if t.broken then (err send_failed, t) else (ok tt, record t { outbox = t.outbox ++ bytes })

-- `io.ReadFull` of `n` bytes; what waits is consumed also where it is too short.
read_full : ℕ → TransportError → M (List ℕ)
read_full n e t =
    if ltb (length t.inbox) n
    then (err e, record t { inbox = [] })
    else (ok (take n t.inbox), record t { inbox = drop n t.inbox })

-- `sendFrame`.
pub send_frame : List ℕ → M (Unit {0})
send_frame bytes = write (put_be 4 (length bytes % 2 ^ 32) ++ bytes)

-- `recvFrame`: the length is tested against the cap before the frame is read.
pub recv_frame : M (List ℕ)
recv_frame t =
    (do
      prefix ← read_full 4 recv_len_failed
      if int_lt t.max_frame_bytes (from_be prefix)
          then fail over_frame_cap
          else read_full (from_be prefix) recv_frame_failed)
      t

-- `SendActivation`.
unfoldable pub send_activation : ActivationHeader → List ℕ → M (Unit {0})
send_activation h payload = do
  bytes ← of_result frame (encode_activation h payload)
  send_frame bytes

-- `RecvActivation`.
unfoldable pub recv_activation : M (ActivationHeader × List ℕ)
recv_activation t =
    (do bytes ← recv_frame; of_result frame (decode_activation bytes t.max_payload)) t

-- The text "auth" of the error frame.
abbrev pub auth_text : List ℕ
auth_text = b'a' ∷ b'u' ∷ b't' ∷ b'h' ∷ []

-- A control frame whose payload is short; the code drops the error.
pub control : ℕ → List ℕ → List ℕ
control mt payload = elim (frame_control mt payload) [ ok bytes ↦ bytes | err _ ↦ [] ]

module _ (hmac : List ℕ → List ℕ → List ℕ) where
  -- `serverHandshake`, with the nonce that it drew.
  pub server_handshake : List ℕ → List ℕ → M (Unit {0})
  server_handshake token nonce = do
    send_frame (control msg_auth_challenge nonce)
    raw ← recv_frame
    (mt, body) ← of_result frame (decode_control raw)
    if mt == msg_auth_response && verify hmac token nonce body
        then send_frame (control msg_ack [])
        else (λ t. (err peer_rejected, (send_frame (control msg_error auth_text) t).1))

  -- `clientHandshake`.
  pub client_handshake : List ℕ → M (Unit {0})
  client_handshake token = do
    raw ← recv_frame
    (mt, nonce) ← of_result frame (decode_control raw)
    if mt == msg_auth_challenge then return tt else fail no_challenge
    sig ← of_result auth (sign hmac token nonce)
    send_frame (control msg_auth_response sig)
    raw' ← recv_frame
    (mt', _) ← of_result frame (decode_control raw')
    if mt' == msg_ack then return tt else fail master_rejected
