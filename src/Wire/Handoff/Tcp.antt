-- ===== src/Wire/Handoff/Tcp.antt =====
-- The TCP transport keeps the order of its messages, so that a state sent over it arrives.
use sofmat.Base.{
  ℕ, ◌+◌, ◌^◌, ◌%◌, ◌<◌, ◌≤◌, ◌≡◌, refl, sym, ap, subst, ◌∙◌, List, [], ◌∷◌, ◌++◌, append_assoc,
  append-nil, false, arith, length, All, All-append, ok,
}
use sofmat.Wire.Framing.{encode_activation, activation_bytes}
use sofmat.Wire.Framing.RoundTrip.{IsHeader, ok-encode_activation}
use sofmat.Wire.Framing.Shape.{ok-validate_shape}
use sofmat.Wire.Framing.Size.{expected_bytes-some, uint8-size}
use sofmat.Wire.Transport.{TcpTransport, TransportError, send_activation, recv_activation}
use sofmat.Wire.Transport.Frames.{wire, IsTransport, send_frame-wire, recv_activation-wire}
use sofmat.Wire.Handoff.{Transport, Message, header, send_kv, recv_kv, hex, n_chunks}
use sofmat.Wire.Handoff.RoundTrip.{IsFifo, messages, send_kv-Wrote, recv_kv-Carries}

abbrev pub tcp : Transport
tcp = record {
  State = TcpTransport;
  Failure = TransportError;
  send = send_activation;
  recv = recv_activation;
  max_payload = λ t. t.max_payload;
}

-- The bytes of the frames of these messages.
abbrev pub wire_all : List Message → List ℕ
wire_all [] = []
wire_all ((h, payload) ∷ ms) = wire (activation_bytes h payload) ++ wire_all ms

-- A message that the encoder takes and the receiver's caps let in.
record IsMessage (cap : ℕ) (m : Message) : Type 0 where
  header_fits : IsHeader m.0
  encoded : encode_activation m.0 m.1 ≡ ok (activation_bytes m.0 m.1)
  payload_fits : length m.1 ≤ cap

-- The limits of a transport that `New` made for at most 2047 MiB.
pub record HasLimits (t : TcpTransport) : Type 0 where
  pub slack : t.max_frame_bytes ≡ t.max_payload + 512
  pub small : t.max_payload < 2 ^ 31

HasLimits-IsTransport : {t : TcpTransport} → HasLimits t → IsTransport t
HasLimits-IsTransport l = record { word = omega arith; payload_word = omega arith }

wire_all-append : (ms ns : List Message) → wire_all (ms ++ ns) ≡ wire_all ms ++ wire_all ns
wire_all-append [] ns = refl
wire_all-append (m ∷ ms) ns =
    ap (λ l. wire (activation_bytes m.0 m.1) ++ l) (wire_all-append ms ns)
    ∙ sym (append_assoc (wire (activation_bytes m.0 m.1)) (wire_all ms) (wire_all ns))

record Carries (ms : List Message) (t : TcpTransport) : Type 0 where
  limits : HasLimits t
  all : All (IsMessage t.max_payload) ms
  rest : List ℕ
  waiting : t.inbox ≡ wire_all ms ++ rest

recv-Carries :
    (t : TcpTransport) (m : Message) (ms : List Message)
    → Carries (m ∷ ms) t
    → (u : TcpTransport) × (recv_activation t ≡ (ok m, u)) × Carries ms u
recv-Carries t (h, payload) ms c =
    let first = c.all.0 in
    (
      record t { inbox = wire_all ms ++ c.rest },
      recv_activation-wire h payload (activation_bytes h payload) (wire_all ms ++ c.rest) t
          (HasLimits-IsTransport c.limits) first.header_fits first.encoded first.payload_fits
          (omega (arith, c.limits.slack)) c.limits.small
          (c.waiting ∙ append_assoc (wire (activation_bytes h payload)) (wire_all ms) c.rest),
      record {
        limits = record { slack = c.limits.slack; small = c.limits.small };
        all = c.all.1;
        rest = c.rest;
        waiting = refl;
      },
    )

-- The messages of the hand-off have one dimension of bytes.
header-IsMessage :
    (stage index cap : ℕ) (payload : List ℕ)
    → stage < 2 ^ 16
    → index < 2 ^ 32
    → length payload ≤ cap
    → length payload ≤ 2 ^ 24
    → IsMessage cap (header stage index payload, payload)
header-IsMessage stage index cap payload st ix fits dim = record {
  header_fits = record { stage = st; token = ix };
  encoded =
      ok-encode_activation (header stage index payload) payload
        (ok-validate_shape (length payload % 2 ^ 32 ∷ []) (omega arith) (omega arith, tt))
        (expected_bytes-some (header stage index payload) 1 (uint8-size) ∙ ap ok (omega arith));
  payload_fits = fits;
}

record Wrote (s : TcpTransport) (ms : List Message) (t : TcpTransport) : Type 0 where
  cap_kept : t.max_payload ≡ s.max_payload
  all : All (IsMessage s.max_payload) ms
  written : t.outbox ≡ s.outbox ++ wire_all ms

send-Wrote :
    (s0 s : TcpTransport) (ms : List Message) (stage index : ℕ) (payload : List ℕ)
    → s.broken ≡ false
    → stage < 2 ^ 16
    → index < 2 ^ 32
    → length payload ≤ s.max_payload
    → length payload ≤ 2 ^ 24
    → Wrote s0 ms s
    → (t : TcpTransport) × (send_activation (header stage index payload) payload s ≡ (ok tt, t))
      × Wrote s0 (ms ++ (header stage index payload, payload) ∷ []) t
      × (t.broken ≡ false)
      × (t.max_payload ≡ s.max_payload)
unfolding send_activation
send-Wrote s0 s ms stage index payload up st ix fits dim w =
    let bytes = activation_bytes (header stage index payload) payload in
    let good = header-IsMessage stage index s.max_payload payload st ix fits dim in
    let sent = send_frame-wire bytes s up in
    (
      record s { outbox = s.outbox ++ wire bytes },
      rw good.encoded sent,
      record {
        cap_kept = w.cap_kept;
        all =
            All-append (IsMessage s0.max_payload) ms ((header stage index payload, payload) ∷ [])
              w.all
              (subst (λ k. IsMessage k (header stage index payload, payload)) w.cap_kept good, tt);
        written =
            ap (λ l. l ++ wire bytes) w.written
            ∙ append_assoc s0.outbox (wire_all ms) (wire bytes)
            ∙ ap (λ l. s0.outbox ++ (wire_all ms ++ l)) (sym (append-nil (wire bytes)))
            ∙ ap (λ l. s0.outbox ++ l)
                (sym (wire_all-append ms ((header stage index payload, payload) ∷ [])));
      },
      up,
      refl,
    )

abbrev tcp-IsFifo : IsFifo tcp
tcp-IsFifo = record {
  IsReady = λ s. s.broken ≡ false;
  Wrote = Wrote;
  Carries = Carries;
  wrote-nil = λ s. record { cap_kept = refl; all = tt; written = sym (append-nil s.outbox) };
  send-Wrote = send-Wrote;
  recv-Carries = recv-Carries;
}

-- What one transport wrote waits, whole, at another with the same limits.
Wrote-Carries :
    (s t r : TcpTransport) (ms : List Message)
    → s.outbox ≡ []
    → HasLimits r
    → r.max_payload ≡ s.max_payload
    → Wrote s ms t
    → Carries (ms ++ []) (record r { inbox = t.outbox })
Wrote-Carries s t r ms fresh limits same w = record {
  limits = record { slack = limits.slack; small = limits.small };
  all =
      subst (λ k. All (IsMessage k) (ms ++ [])) (sym same)
        (subst (All (IsMessage s.max_payload)) (sym (append-nil ms)) w.all);
  rest = [];
  waiting =
      w.written
      ∙ ap (λ l. l ++ wire_all ms) fresh
      ∙ ap wire_all (sym (append-nil ms))
      ∙ sym (append-nil (wire_all (ms ++ [])));
}

-- A KV state handed off over TCP arrives: `SendKV` succeeds with the sum of the blob, and `RecvKV`, at
-- the other end of the connection, returns the same sequence and the same blob.
pub send_kv-recv_kv :
    (sum256 : List ℕ → List ℕ) (seq_id size max_alloc : ℕ) (blob : List ℕ) (s r : TcpTransport)
    → length (sum256 blob) ≡ 32
    → seq_id < 2 ^ 32
    → 0 < size
    → size ≤ s.max_payload
    → size ≤ 2 ^ 24
    → 44 ≤ s.max_payload
    → s.broken ≡ false
    → s.outbox ≡ []
    → HasLimits r
    → r.max_payload ≡ s.max_payload
    → n_chunks (length blob) size < 2 ^ 32
    → length blob < 2 ^ 63
    → length blob ≤ max_alloc
    → (t : TcpTransport) × (u : TcpTransport) × (send_kv tcp sum256 seq_id blob size s
        ≡ (ok (hex (sum256 blob)), t))
      × (recv_kv tcp sum256 max_alloc (record r { inbox = t.outbox }) ≡ (ok (seq_id, blob), u))
send_kv-recv_kv sum256 seq_id size max_alloc blob s r sized seq some_bytes cap dim room up fresh
      limits same count word alloc =
    let (t, sent, w) =
      send_kv-Wrote tcp sum256 tcp-IsFifo seq_id size blob s up seq some_bytes cap dim room
        (omega (arith, limits.small)) sized in
    let (u, got, c) =
      recv_kv-Carries tcp sum256 tcp-IsFifo seq_id size max_alloc blob []
        (record r { inbox = t.outbox }) some_bytes count word alloc sized
        (Wrote-Carries s t r (messages tcp sum256 tcp-IsFifo seq_id blob size) fresh limits same
          w) in
    (t, u, sent, got)
