-- ===== src/Wire/Transport/Handshake.antt =====
-- The handshake: two ends that share the token both accept, and neither end accepts a peer that does
-- not prove it.
use sofmat.Base.{
  ℕ, ◌+◌, ◌≤◌, ◌≡◌, refl, ap, ◌∙◌, List, [], ◌∷◌, ◌++◌, Bool, true, false, ◌&&◌, arith, length,
  length-append, Result, ok, err, ◌==◌, if◌then◌else◌, Bool-cases, inl, inr, ◌≢◌,
}
use sofmat.Base.Effects.{◌>>=◌, return, fail, >>=-eq-ok, of_result-eq-ok}
use sofmat.Wire.Bytes.{put_be, length-put_be}
use sofmat.Wire.Framing.{FrameError, frame_control, decode_control, magic, proto_version}
use sofmat.Wire.Framing.RoundTrip.{decode_control-frame_control}
use sofmat.Wire.Auth.{sign, verify, verify_sound, verify-sign, sign_lem}
use sofmat.Wire.Transport.{
  TcpTransport, TransportError, M, frame, auth, control, send_frame, recv_frame, server_handshake,
  client_handshake, peer_rejected, auth_text, no_challenge, master_rejected,
}
use sofmat.Wire.Transport.Frames.{wire, IsTransport, send_frame-wire, recv_frame-wire}

-- A test whose failure is an error.
check-eq-ok :
    {B : Type 0} (c : Bool) (x : TransportError) (f : M B) (t t' : TcpTransport) {b : B}
    → (if c then f else fail x) t ≡ (ok b, t')
    → (c ≡ true) × (f t ≡ (ok b, t'))
check-eq-ok true x f t t' e = (refl, e)
check-eq-ok false x f t t' e = cc

check_then-eq-ok :
    {B : Type 0} (c : Bool) (x : TransportError) (f : M B) (t t' : TcpTransport) {b : B}
    → ((if c then return tt else fail x) >>= λ _. f) t ≡ (ok b, t')
    → (c ≡ true) × (f t ≡ (ok b, t'))
check_then-eq-ok true x f t t' e = (refl, e)
check_then-eq-ok false x f t t' e = cc

-- A decoded frame of the kind that a test names.
kind-eq :
    (r : Result FrameError (ℕ × List ℕ)) (p : ℕ × List ℕ) (k : ℕ)
    → r ≡ ok p
    → (p.0 == k) ≡ true
    → r ≡ ok (k, p.1)
kind-eq r p k decoded same = ground arith

-- The bytes of a control frame.
pub control_bytes : ℕ → List ℕ → List ℕ
control_bytes mt payload =
    magic ++ proto_version ∷ mt ∷ 0 ∷ 0 ∷ (put_be 8 (length payload) ++ payload)

frame_control_lem :
    (mt : ℕ) (payload : List ℕ)
    → length payload ≤ 4096
    → frame_control mt payload ≡ ok (control_bytes mt payload)
unfolding frame_control control_bytes
frame_control_lem mt payload small = ground arith

control_lem :
    (mt : ℕ) (payload : List ℕ)
    → length payload ≤ 4096
    → control mt payload ≡ control_bytes mt payload
unfolding control
control_lem mt payload small = rw (frame_control_lem mt payload small, control)

pub decode_control_bytes :
    (mt : ℕ) (payload : List ℕ)
    → length payload ≤ 4096
    → decode_control (control_bytes mt payload) ≡ ok (mt, payload)
decode_control_bytes mt payload small =
    decode_control-frame_control mt payload (control_bytes mt payload)
      (frame_control_lem mt payload small)

length-control_bytes :
    (mt : ℕ) (payload : List ℕ) → length (control_bytes mt payload) ≡ 16 + length payload
unfolding control_bytes
length-control_bytes mt payload =
    omega
      (arith, length-append (put_be 8 (length payload)) payload, length-put_be 8 (length payload))

pub send_control :
    (mt : ℕ) (payload : List ℕ) (t : TcpTransport)
    → length payload ≤ 4096
    → t.broken ≡ false
    → send_frame (control mt payload) t
      ≡ (ok tt, record t { outbox = t.outbox ++ wire (control_bytes mt payload) })
send_control mt payload t small up =
    ap (λ bytes. send_frame bytes t) (control_lem mt payload small)
    ∙ send_frame-wire (control_bytes mt payload) t up

pub recv_control :
    (mt : ℕ) (payload rest : List ℕ) (t : TcpTransport)
    → IsTransport t
    → length payload ≤ 4000
    → 4096 ≤ t.max_frame_bytes
    → t.inbox ≡ wire (control_bytes mt payload) ++ rest
    → recv_frame t ≡ (ok (control_bytes mt payload), record t { inbox = rest })
recv_control mt payload rest t w small cap at =
    let size = length-control_bytes mt payload in
    recv_frame-wire (control_bytes mt payload) rest t w (omega arith) (omega arith) at

module _ (hmac : List ℕ → List ℕ → List ℕ) where
  -- The verdict of the server on a decoded response.
  judge :
      (token nonce body : List ℕ) (mt : ℕ)
      → (mt == 3 && verify hmac token nonce body) ≡ true
      → (mt ≡ 3) × (sign hmac token nonce ≡ ok body)
  judge token nonce body mt h = (ground arith, verify_sound hmac token nonce body (ground arith))

  -- A server whose handshake succeeds sent the challenge and received a response frame whose body is
  -- the signature of its nonce under the token.
  pub server_sound :
      (token nonce : List ℕ) (t t' : TcpTransport)
      → server_handshake hmac token nonce t ≡ (ok tt, t')
      → (raw : List ℕ) × (body : List ℕ) × (s : TcpTransport) × (s' : TcpTransport) × (send_frame
            (control 2 nonce)
            t
          ≡ (ok tt, s))
        × (recv_frame s ≡ (ok raw, s'))
        × (decode_control raw ≡ ok (3, body))
        × (sign hmac token nonce ≡ ok body)
  unfolding server_handshake
  server_sound token nonce t t' e =
      let (u, s, sent, e1) = >>=-eq-ok (send_frame (control 2 nonce)) _ t t' e in
      let (raw, s', received, e2) = >>=-eq-ok recv_frame _ s t' e1 in
      let (p, decoded, e3) = of_result-eq-ok frame (decode_control raw) _ s' t' e2 in
      elim (Bool-cases (p.0 == 3 && verify hmac token nonce p.1)) [
        | inl pass ↦
            let (kind, signed) = judge token nonce p.1 p.0 pass in
            (raw, p.1, s, s', sent, received, decoded ∙ ap (λ k. ok (k, p.1)) kind, signed)
        | inr refused ↦ cc (rw refused at e3)
      ]

  -- A server whose peer answers with anything but the signature of the nonce reports the
  -- rejection, and writes an error frame in place of the acknowledgement.
  pub server_rejects :
      (token nonce raw body : List ℕ) (mt : ℕ) (t s s' : TcpTransport)
      → send_frame (control 2 nonce) t ≡ (ok tt, s)
      → recv_frame s ≡ (ok raw, s')
      → decode_control raw ≡ ok (mt, body)
      → (mt == 3 && verify hmac token nonce body) ≡ false
      → server_handshake hmac token nonce t
        ≡ (err peer_rejected, (send_frame (control 5 auth_text) s').1)
  unfolding server_handshake
  server_rejects token nonce raw body mt t s s' sent received decoded refused =
      rw (sent, server_handshake) (rw received (rw decoded (rw refused refl)))

  -- The client stops before it signs anything unless the server opens with a challenge, and
  -- takes nothing but an acknowledgement for an answer.
  pub client_sound :
      (token : List ℕ) (t t' : TcpTransport)
      → client_handshake hmac token t ≡ (ok tt, t')
      → (raw : List ℕ) × (nonce : List ℕ) × (sig : List ℕ) × (raw' : List ℕ) × (last : List ℕ)
        × (s : TcpTransport) × (s' : TcpTransport) × (s2 : TcpTransport) × (recv_frame t
            ≡ (ok raw, s))
        × (decode_control raw ≡ ok (2, nonce))
        × (sign hmac token nonce ≡ ok sig)
        × (send_frame (control 3 sig) s ≡ (ok tt, s'))
        × (recv_frame s' ≡ (ok raw', s2))
        × (decode_control raw' ≡ ok (4, last))
  unfolding client_handshake
  client_sound token t t' e =
      let (raw, s, received, e1) = >>=-eq-ok recv_frame _ t t' e in
      let (p, decoded, e2) = of_result-eq-ok frame (decode_control raw) _ s t' e1 in
      let (kind, e3) = check_then-eq-ok (p.0 == 2) no_challenge _ s t' e2 in
      let (sig, signed, e4) = of_result-eq-ok auth (sign hmac token p.1) _ s t' e3 in
      let (u, s', sent, e5) = >>=-eq-ok (send_frame (control 3 sig)) _ s t' e4 in
      let (raw', s2, received', e6) = >>=-eq-ok recv_frame _ s' t' e5 in
      let (q, decoded', e7) = of_result-eq-ok frame (decode_control raw') _ s2 t' e6 in
      let (kind', e8) = check-eq-ok (q.0 == 4) master_rejected (return tt) s2 t' e7 in
      (
        raw,
        p.1,
        sig,
        raw',
        q.1,
        s,
        s',
        s2,
        received,
        kind-eq (decode_control raw) p 2 decoded kind,
        signed,
        sent,
        received',
        kind-eq (decode_control raw') q 4 decoded' kind',
      )

  server_accepts :
      (token nonce : List ℕ) (t : TcpTransport)
      → sign hmac token nonce ≡ ok (hmac token nonce)
      → length nonce ≤ 4000
      → length (hmac token nonce) ≤ 4000
      → IsTransport t
      → 4096 ≤ t.max_frame_bytes
      → t.broken ≡ false
      → t.inbox ≡ wire (control_bytes 3 (hmac token nonce)) ++ []
      → server_handshake hmac token nonce t ≡ (
        ok tt,
        record t {
          inbox = [];
          outbox = (t.outbox ++ wire (control_bytes 2 nonce)) ++ wire (control_bytes 4 []);
        },
      )
  unfolding server_handshake
  server_accepts token nonce t signed sized small w cap up at =
      let t1 = record t { outbox = t.outbox ++ wire (control_bytes 2 nonce) } in
      let t2 = record t1 { inbox = [] } in
      let sent = send_control 2 nonce t (omega arith) up in
      let received =
        recv_control 3 (hmac token nonce) [] t1
          (record { word = w.word; payload_word = w.payload_word }) small cap at in
      let proved = verify-sign hmac token nonce (hmac token nonce) signed in
      rw (sent, server_handshake)
        (rw received (
          rw (decode_control_bytes 3 (hmac token nonce) (omega arith))
            (rw proved (send_control 4 [] t2 (omega arith) up))))

  client_accepts :
      (token nonce : List ℕ) (t : TcpTransport)
      → sign hmac token nonce ≡ ok (hmac token nonce)
      → length nonce ≤ 4000
      → length (hmac token nonce) ≤ 4000
      → IsTransport t
      → 4096 ≤ t.max_frame_bytes
      → t.broken ≡ false
      → t.inbox ≡ wire (control_bytes 2 nonce) ++ (wire (control_bytes 4 []) ++ [])
      → client_handshake hmac token t ≡ (
        ok tt,
        record t { inbox = []; outbox = t.outbox ++ wire (control_bytes 3 (hmac token nonce)) },
      )
  unfolding client_handshake
  client_accepts token nonce t signed sized small w cap up at =
      let t1 = record t { inbox = wire (control_bytes 4 []) ++ [] } in
      let t2 = record t1 { outbox = t.outbox ++ wire (control_bytes 3 (hmac token nonce)) } in
      let received = recv_control 2 nonce (wire (control_bytes 4 []) ++ []) t w sized cap at in
      let sent = send_control 3 (hmac token nonce) t1 (omega arith) up in
      let acked =
        recv_control 4 [] [] t2 (record { word = w.word; payload_word = w.payload_word })
          (omega arith) cap refl in
      rw (received, client_handshake)
        (rw (decode_control_bytes 2 nonce (omega arith))
          (rw signed (rw sent (rw acked (rw (decode_control_bytes 4 [] (omega arith)) refl)))))

  -- Two ends that share a token accept one another: with the bytes that each of them writes waiting at
  -- the other, both handshakes succeed, read all that waits and write just those bytes.
  pub handshake_agree :
      (token nonce : List ℕ) (server client : TcpTransport)
      → length token ≢ 0
      → length nonce ≡ 32
      → length (hmac token nonce) ≤ 4000
      → IsTransport server
      → IsTransport client
      → 4096 ≤ server.max_frame_bytes
      → 4096 ≤ client.max_frame_bytes
      → server.broken ≡ false
      → client.broken ≡ false
      → server.inbox ≡ wire (control_bytes 3 (hmac token nonce)) ++ []
      → client.inbox ≡ wire (control_bytes 2 nonce) ++ (wire (control_bytes 4 []) ++ [])
      → (server_handshake hmac token nonce server ≡ (
        ok tt,
        record server {
          inbox = [];
          outbox = (server.outbox ++ wire (control_bytes 2 nonce)) ++ wire (control_bytes 4 []);
        },
      ))
        × (client_handshake hmac token client ≡ (
          ok tt,
          record client {
            inbox = [];
            outbox = client.outbox ++ wire (control_bytes 3 (hmac token nonce));
          },
        ))
  handshake_agree token nonce server client named sized small ws wc caps capc ups upc at_server
        at_client =
      let signed = sign_lem hmac token nonce named sized in
      (
        server_accepts token nonce server signed (omega arith) small ws caps ups at_server,
        client_accepts token nonce client signed (omega arith) small wc capc upc at_client,
      )
