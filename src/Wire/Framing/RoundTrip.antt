-- ===== src/Wire/Framing/RoundTrip.antt =====
-- What `EncodeActivation` and `FrameControl` write, their decoders read.
use sofmat.Base.{
  ℕ, ◌+◌, ◌*◌, ◌^◌, ◌≤◌, ◌<◌, ◌≡◌, refl, sym, ap, ◌∙◌, List, ◌∷◌, ◌++◌, arith, length,
  length-append, take, drop, drop-drop, drop-append, take-append, take_of_length-le, All, ok,
}
use sofmat.Wire.Bytes.{byte_at, put_be, from_be, uint_at, from_be-put_be, length-put_be, bytes_eq}
use sofmat.Wire.Framing.{
  ActivationHeader, validate_shape, put_shape, read_shape, expected_bytes, max_ndim, magic,
  proto_version, decode_body, activation_bytes, encode_activation, decode_activation, check_prefix,
  frame_control, decode_control,
}
use sofmat.Wire.Framing.Shape.{IsDim, validate_shape-ok, length-put_shape, read_shape-put_shape}

-- The ranges of the header's Go types (`uint16` and `uint32`).
pub record IsHeader (h : ActivationHeader) : Type 0 where
  pub stage : h.stage_id < 2 ^ 16
  pub token : h.token_index < 2 ^ 32

-- What an accepted call of the encoder shows.
pub encode_activation-ok :
    (h : ActivationHeader) (payload : List ℕ) {buf : List ℕ}
    → encode_activation h payload ≡ ok buf
    → (validate_shape h.shape ≡ ok tt)
      × (expected_bytes h ≡ ok (length payload))
      × (activation_bytes h payload ≡ buf)
unfolding encode_activation
encode_activation-ok h payload e = ground arith

pub ok-encode_activation :
    (h : ActivationHeader) (payload : List ℕ)
    → validate_shape h.shape ≡ ok tt
    → expected_bytes h ≡ ok (length payload)
    → encode_activation h payload ≡ ok (activation_bytes h payload)
unfolding encode_activation
ok-encode_activation h payload valid expected = ground arith

-- An integer stands where its bytes stand.
pub uint_at-put_be :
    (w off n : ℕ) (buf post : List ℕ)
    → n < 256 ^ w
    → drop off buf ≡ put_be w n ++ post
    → uint_at w off buf ≡ n
uint_at-put_be w off n buf post h e =
    ap (λ l. from_be (take w l)) e
    ∙ ap (λ k. from_be (take k (put_be w n ++ post))) (sym (length-put_be w n))
    ∙ ap from_be (take-append (put_be w n) post)
    ∙ from_be-put_be w n h

pub drop-put_be :
    (w off n : ℕ) (buf post : List ℕ)
    → drop off buf ≡ put_be w n ++ post
    → drop (off + w) buf ≡ post
drop-put_be w off n buf post e =
    sym (drop-drop off w buf)
    ∙ ap (drop w) e
    ∙ ap (λ k. drop k (put_be w n ++ post)) (sym (length-put_be w n))
    ∙ drop-append (put_be w n) post

-- The body of a frame, behind its fixed part.
decode_body_lem :
    (h : ActivationHeader) (payload buf : List ℕ) (max_payload : ℕ)
    → validate_shape h.shape ≡ ok tt
    → expected_bytes h ≡ ok (length payload)
    → length h.shape ≤ max_ndim
    → length payload ≤ max_payload
    → max_payload < 2 ^ 63
    → length buf ≡ 24 + 4 * length h.shape + length payload
    → drop (16 + 4 * length h.shape) buf ≡ put_be 8 (length payload) ++ payload
    → decode_body h buf max_payload ≡ ok (h, payload)
unfolding decode_body
decode_body_lem h payload buf max_payload valid expected dims fits cap size at =
    let off = 16 + 4 * length h.shape in
    let n : uint_at 8 off buf ≡ length payload =
      uint_at-put_be 8 off (length payload) buf payload (omega arith) at in
    ground (
      arith,
      valid,
      expected,
      n,
      size,
      drop-put_be 8 off (length payload) buf payload at,
      take_of_length-le (length payload) payload,
    )

pub length-activation_bytes :
    (h : ActivationHeader) (payload : List ℕ)
    → length (activation_bytes h payload) ≡ 24 + 4 * length h.shape + length payload
unfolding activation_bytes put_be
length-activation_bytes h payload = omega (
  arith,
  length-append (put_shape h.shape) (put_be 8 (length payload) ++ payload),
  length-put_shape h.shape,
)

-- The fields of the fixed part of a frame that the encoder wrote.
record HasHead (h : ActivationHeader) (buf : List ℕ) : Type 0 where
  magic_bytes : check_prefix buf ≡ ok tt
  kind : byte_at buf 5 ≡ 1
  reserved_low : byte_at buf 6 ≡ 0
  reserved_high : byte_at buf 7 ≡ 0
  stage_at : uint_at 2 8 buf ≡ h.stage_id
  token_at : uint_at 4 10 buf ≡ h.token_index
  dtype_at : byte_at buf 14 ≡ h.dtype
  ndim_at : byte_at buf 15 ≡ length h.shape
  shape_at : read_shape (length h.shape) 16 buf ≡ h.shape

activation_bytes-HasHead :
    (h : ActivationHeader) (payload : List ℕ)
    → IsHeader h
    → length h.shape ≤ max_ndim
    → All IsDim h.shape
    → HasHead h (activation_bytes h payload)
unfolding activation_bytes put_be check_prefix bytes_eq
activation_bytes-HasHead h payload wf dims all = record {
  magic_bytes = refl;
  kind = refl;
  reserved_low = refl;
  reserved_high = refl;
  stage_at = uint_at-put_be 2 8 h.stage_id (activation_bytes h payload) _ wf.stage refl;
  token_at = uint_at-put_be 4 10 h.token_index (activation_bytes h payload) _ wf.token refl;
  dtype_at = refl;
  ndim_at = omega arith;
  shape_at =
      read_shape-put_shape h.shape 16 (activation_bytes h payload)
        (put_be 8 (length payload) ++ payload) all refl;
}

decode-HasHead :
    (h : ActivationHeader) (buf : List ℕ) (max_payload : ℕ)
    → HasHead h buf
    → length h.shape ≤ max_ndim
    → 24 + 4 * length h.shape ≤ length buf
    → decode_activation buf max_payload ≡ decode_body h buf max_payload
unfolding decode_activation
decode-HasHead h buf max_payload head dims size = ground arith

drop-activation_bytes :
    (h : ActivationHeader) (payload : List ℕ)
    → drop (16 + 4 * length h.shape) (activation_bytes h payload)
      ≡ put_be 8 (length payload) ++ payload
unfolding activation_bytes put_be
drop-activation_bytes h payload =
    sym (drop-drop 16 (4 * length h.shape) (activation_bytes h payload))
    ∙ ap (λ k. drop k (put_shape h.shape ++ (put_be 8 (length payload) ++ payload)))
        (sym (length-put_shape h.shape))
    ∙ drop-append (put_shape h.shape) (put_be 8 (length payload) ++ payload)

-- `DecodeActivation` reads back what `EncodeActivation` wrote.
pub decode-encode :
    (h : ActivationHeader) (payload buf : List ℕ) (max_payload : ℕ)
    → IsHeader h
    → length payload ≤ max_payload
    → max_payload < 2 ^ 63
    → encode_activation h payload ≡ ok buf
    → decode_activation buf max_payload ≡ ok (h, payload)
decode-encode h payload buf max_payload wf fits cap e =
    let (valid, expected, bytes) = encode_activation-ok h payload e in
    let (dims, all) = validate_shape-ok h.shape valid in
    let size = length-activation_bytes h payload in
    rw (← bytes) (
      decode-HasHead h (activation_bytes h payload) max_payload
        (activation_bytes-HasHead h payload wf dims all) dims (omega (arith, size))
      ∙ decode_body_lem h payload (activation_bytes h payload) max_payload valid expected dims fits
          cap size (drop-activation_bytes h payload))

-- What an accepted call of `FrameControl` shows.
pub frame_control-ok :
    (mt : ℕ) (payload : List ℕ) {buf : List ℕ}
    → frame_control mt payload ≡ ok buf
    → (length payload ≤ 4096)
      × (magic ++ proto_version ∷ mt ∷ 0 ∷ 0 ∷ (put_be 8 (length payload) ++ payload) ≡ buf)
unfolding frame_control
frame_control-ok mt payload e = ground arith

decode_control_lem :
    (mt : ℕ) (payload : List ℕ)
    → length payload ≤ 4096
    → decode_control (magic ++ proto_version ∷ mt ∷ 0 ∷ 0 ∷ (put_be 8 (length payload) ++ payload))
      ≡ ok (mt, payload)
unfolding decode_control check_prefix bytes_eq put_be
decode_control_lem mt payload small = ground (
  arith,
  uint_at-put_be 8 0 (length payload) (put_be 8 (length payload) ++ payload) payload (omega arith)
      refl,
)

-- `DecodeControl` reads back every frame that `FrameControl` accepts.
pub decode_control-frame_control :
    (mt : ℕ) (payload buf : List ℕ)
    → frame_control mt payload ≡ ok buf
    → decode_control buf ≡ ok (mt, payload)
decode_control-frame_control mt payload buf e =
    let (small, bytes) = frame_control-ok mt payload e in
    rw (← bytes) (decode_control_lem mt payload small)
