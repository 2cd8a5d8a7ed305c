-- ===== src/Wire/Transport/Frames.antt =====
-- A frame that is sent is received, whatever follows it on the connection.
use sofmat.Base.{
  ℕ, ◌+◌, ◌*◌, ◌^◌, ◌≤◌, ◌<◌, ◌%◌, ◌≡◌, refl, sym, ap, ◌∙◌, List, ◌++◌, append_assoc, true, false,
  arith, length, length-append, take, drop, take-append, drop-append, ok, err,
}
use sofmat.Wire.Bytes.{put_be, from_be, length-put_be, from_be-put_be}
use sofmat.Wire.Framing.{ActivationHeader, encode_activation}
use sofmat.Wire.Framing.Shape.{validate_shape-ok}
use sofmat.Wire.Framing.RoundTrip.{
  IsHeader, decode-encode, encode_activation-ok, length-activation_bytes,
}
use sofmat.Wire.Transport.{
  TcpTransport, TransportError, send_frame, recv_frame, write, read_full, recv_activation,
  over_frame_cap, recv_len_failed, recv_frame_failed, send_failed,
}

-- The bytes that stand for a frame on the connection.
abbrev pub wire : List ℕ → List ℕ
wire bytes = put_be 4 (length bytes % 2 ^ 32) ++ bytes

-- The limits that `New` sets are `int`s that are not negative.
pub record IsTransport (t : TcpTransport) : Type 0 where
  pub word : t.max_frame_bytes < 2 ^ 63
  pub payload_word : t.max_payload < 2 ^ 63

read_full-append :
    (xs ys : List ℕ) (n : ℕ) (e : TransportError) (t : TcpTransport)
    → length xs ≡ n
    → t.inbox ≡ xs ++ ys
    → read_full n e t ≡ (ok xs, record t { inbox = ys })
unfolding read_full
read_full-append xs ys n e t size at =
    let taken : take n t.inbox ≡ xs = cc (take-append xs ys) in
    let dropped : drop n t.inbox ≡ ys = cc (drop-append xs ys) in
    ground (arith, taken, dropped, ap length at, length-append xs ys)

pub recv_frame-wire :
    (bytes rest : List ℕ) (t : TcpTransport)
    → IsTransport t
    → length bytes < 2 ^ 32
    → length bytes ≤ t.max_frame_bytes
    → t.inbox ≡ wire bytes ++ rest
    → recv_frame t ≡ (ok bytes, record t { inbox = rest })
unfolding recv_frame
recv_frame-wire bytes rest t h short fits at =
    let n = length bytes % 2 ^ 32 in
    let size : from_be (put_be 4 n) ≡ length bytes =
      from_be-put_be 4 n (omega arith) ∙ omega arith in
    let first =
      read_full-append (put_be 4 n) (bytes ++ rest) 4 recv_len_failed t (length-put_be 4 n)
        (at ∙ append_assoc (put_be 4 n) bytes rest) in
    let second =
      read_full-append bytes rest (from_be (put_be 4 n)) recv_frame_failed
        (record t { inbox = bytes ++ rest }) (sym size) refl in
    rw (first, recv_frame) (ground (arith, second, size))

-- What a send appends, on a connection that is not broken.
pub send_frame-wire :
    (bytes : List ℕ) (t : TcpTransport)
    → t.broken ≡ false
    → send_frame bytes t ≡ (ok tt, record t { outbox = t.outbox ++ wire bytes })
unfolding send_frame write
send_frame-wire bytes t h = ground arith

-- A connection that is broken reports the failure and writes nothing.
pub send_frame-broken :
    (bytes : List ℕ) (t : TcpTransport)
    → t.broken ≡ true
    → send_frame bytes t ≡ (err send_failed, t)
unfolding send_frame write
send_frame-broken bytes t h = ground arith

-- A frame longer than the cap is refused before any of its bytes is read.
pub recv_frame-over_cap :
    (n : ℕ) (rest : List ℕ) (t : TcpTransport)
    → IsTransport t
    → n < 2 ^ 32
    → t.max_frame_bytes < n
    → t.inbox ≡ put_be 4 n ++ rest
    → recv_frame t ≡ (err over_frame_cap, record t { inbox = rest })
unfolding recv_frame
recv_frame-over_cap n rest t h word over at =
    let first = read_full-append (put_be 4 n) rest 4 recv_len_failed t (length-put_be 4 n) at in
    rw (first, recv_frame) (ground (arith, from_be-put_be 4 n word))

-- An activation whose encoding is accepted is received as it was sent.
pub recv_activation-wire :
    (h : ActivationHeader) (payload bytes rest : List ℕ) (t : TcpTransport)
    → IsTransport t
    → IsHeader h
    → encode_activation h payload ≡ ok bytes
    → length payload ≤ t.max_payload
    → t.max_payload + 512 ≤ t.max_frame_bytes
    → t.max_payload < 2 ^ 31
    → t.inbox ≡ wire bytes ++ rest
    → recv_activation t ≡ (ok (h, payload), record t { inbox = rest })
unfolding recv_activation
recv_activation-wire h payload bytes rest t w wf encoded fits slack small at =
    let (valid, expected, shape) = encode_activation-ok h payload encoded in
    let size : length bytes ≡ 24 + 4 * length h.shape + length payload =
      ap length (sym shape) ∙ length-activation_bytes h payload in
    let dims = (validate_shape-ok h.shape valid).0 in
    let received = recv_frame-wire bytes rest t w (omega arith) (omega arith) at in
    rw (received, recv_activation)
      (rw (decode-encode h payload bytes t.max_payload wf fits (omega arith) encoded) refl)
