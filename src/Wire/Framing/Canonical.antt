-- ===== src/Wire/Framing/Canonical.antt =====
-- What the decoder of activations accepts: exactly the frames that the encoder writes, with a payload
-- within the cap, whose length is the size that the shape implies in Go's `int`.
use sofmat.Base.{
  ℕ, zero, suc, ◌+◌, ◌*◌, ◌^◌, ◌≤◌, ◌<◌, ◌≡◌, refl, sym, ap, subst, ◌∙◌, List, [], ◌∷◌, ◌++◌, true,
  not, append_assoc, arith, length, length-take, length-drop, take, drop, drop-drop,
  take-append-drop, take_of_length-le, All-take, All-drop, ok, int_lt, int_add,
}
use sofmat.Wire.Bytes.{
  byte_at, put_be, uint_at, put_be-from_be, IsBytes, IsByte, from_be-lt, bytes_eq, eq_of_bytes_eq,
}
use sofmat.Wire.Framing.{
  ActivationHeader, validate_shape, put_shape, read_shape, expected_bytes, magic, decode_body,
  activation_bytes, encode_activation, decode_activation, check_prefix,
}

-- Bytes read as an integer and put again rejoin what follows them.
put_be-uint_at :
    (w off : ℕ) (buf : List ℕ)
    → IsBytes buf
    → off + w ≤ length buf
    → put_be w (uint_at w off buf) ++ drop (off + w) buf ≡ drop off buf
put_be-uint_at w off buf bytes fits =
    let size : length (take w (drop off buf)) ≡ w =
      omega (arith, length-take w (drop off buf), length-drop off buf) in
    ap (λ k. put_be k (uint_at w off buf) ++ drop (off + w) buf) (sym size)
    ∙ ap (λ l. l ++ drop (off + w) buf)
        (put_be-from_be (take w (drop off buf))
          (All-take IsByte w (drop off buf) (All-drop IsByte off buf bytes)))
    ∙ ap (λ l. take w (drop off buf) ++ l) (sym (drop-drop off w buf))
    ∙ take-append-drop w (drop off buf)

put_shape-read_shape :
    (n off : ℕ) (buf : List ℕ)
    → IsBytes buf
    → off + 4 * n ≤ length buf
    → put_shape (read_shape n off buf) ++ drop (off + 4 * n) buf ≡ drop off buf
unfolding put_shape read_shape
put_shape-read_shape zero off buf bytes fits = ap (λ k. drop k buf) (omega arith)
put_shape-read_shape (suc n) off buf bytes fits =
    append_assoc (put_be 4 (uint_at 4 off buf)) (put_shape (read_shape n (off + 4) buf))
      (drop (off + 4 * suc n) buf)
    ∙ ap
        (λ k.
          put_be 4 (uint_at 4 off buf) ++ (put_shape (read_shape n (off + 4) buf) ++ drop k buf))
        (omega arith)
    ∙ ap (λ l. put_be 4 (uint_at 4 off buf) ++ l)
        (put_shape-read_shape n (off + 4) buf bytes (omega arith))
    ∙ put_be-uint_at 4 off buf bytes (omega arith)

length-read_shape : (n off : ℕ) (buf : List ℕ) → length (read_shape n off buf) ≡ n
unfolding read_shape
length-read_shape zero off buf = refl
length-read_shape (suc n) off buf = ap suc (length-read_shape n (off + 4) buf)

byte_at-drop :
    (i : ℕ) (buf : List ℕ) → i < length buf → byte_at buf i ∷ drop (suc i) buf ≡ drop i buf
byte_at-drop i [] h = absurd (omega arith)
byte_at-drop zero (b ∷ buf) h = refl
byte_at-drop (suc i) (b ∷ buf) h = byte_at-drop i buf (omega arith)

-- What an accepted body shows, in terms of the buffer.
record Body (h : ActivationHeader) (buf : List ℕ) (max_payload : ℕ) (payload : List ℕ)
    : Type 0 where
  valid : validate_shape h.shape ≡ ok tt
  within : int_lt max_payload (uint_at 8 (16 + 4 * length h.shape) buf) ≡ not true
  sum : int_add (24 + 4 * length h.shape) (uint_at 8 (16 + 4 * length h.shape) buf) ≡ length buf
  expected : expected_bytes h ≡ ok (uint_at 8 (16 + 4 * length h.shape) buf)
  rest :
      payload ≡ take (uint_at 8 (16 + 4 * length h.shape) buf) (drop (24 + 4 * length h.shape) buf)

decode_body-ok :
    (h g : ActivationHeader) (buf : List ℕ) (max_payload : ℕ) {payload : List ℕ}
    → decode_body h buf max_payload ≡ ok (g, payload)
    → (g ≡ h) × Body h buf max_payload payload
unfolding decode_body
decode_body-ok h g buf max_payload e = (ground arith, ground arith)

-- The header that the fixed part of a buffer holds.
abbrev head_of : List ℕ → ActivationHeader
head_of buf = record {
  stage_id = uint_at 2 8 buf;
  token_index = uint_at 4 10 buf;
  dtype = byte_at buf 14;
  shape = read_shape (byte_at buf 15) 16 buf;
}

record Head (buf : List ℕ) : Type 0 where
  magic_bytes : bytes_eq (take 4 buf) magic ≡ true
  version : byte_at buf 4 ≡ 1
  kind : byte_at buf 5 ≡ 1
  reserved_low : byte_at buf 6 ≡ 0
  reserved_high : byte_at buf 7 ≡ 0
  dims : byte_at buf 15 ≤ 8
  long : 24 + 4 * byte_at buf 15 ≤ length buf

decode_activation-ok :
    (buf : List ℕ) (max_payload : ℕ) (g : ActivationHeader) (payload : List ℕ)
    → decode_activation buf max_payload ≡ ok (g, payload)
    → Head buf × (decode_body (head_of buf) buf max_payload ≡ ok (g, payload))
unfolding decode_activation check_prefix
decode_activation-ok buf max_payload g payload e = (ground arith, ground arith)

-- The fixed part of an accepted buffer, rejoined.
prefix_bytes : (buf : List ℕ) → Head buf → magic ++ 1 ∷ 1 ∷ 0 ∷ 0 ∷ drop 8 buf ≡ buf
prefix_bytes buf h = cc (
  eq_of_bytes_eq (take 4 buf) magic h.magic_bytes,
  take-append-drop 4 buf,
  byte_at-drop 4 buf (omega arith),
  byte_at-drop 5 buf (omega arith),
  byte_at-drop 6 buf (omega arith),
  byte_at-drop 7 buf (omega arith),
  h.version,
  h.kind,
  h.reserved_low,
  h.reserved_high,
)

fixed_bytes :
    (buf tail : List ℕ)
    → IsBytes buf
    → 16 ≤ length buf
    → drop 16 buf ≡ tail
    → put_be 2 (uint_at 2 8 buf)
        ++ (put_be 4 (uint_at 4 10 buf) ++ (byte_at buf 14 ∷ byte_at buf 15 ∷ tail))
      ≡ drop 8 buf
fixed_bytes buf tail bytes long e =
    ap (λ l. put_be 2 (uint_at 2 8 buf) ++ (put_be 4 (uint_at 4 10 buf) ++ l))
      (cc (byte_at-drop 14 buf (omega arith), byte_at-drop 15 buf (omega arith), e))
    ∙ ap (λ l. put_be 2 (uint_at 2 8 buf) ++ l) (put_be-uint_at 4 10 buf bytes (omega arith))
    ∙ put_be-uint_at 2 8 buf bytes (omega arith)

-- Everything behind the fixed part, rejoined.
body_bytes :
    (buf payload : List ℕ) (n max_payload : ℕ) (h : ActivationHeader)
    → IsBytes buf
    → h.shape ≡ read_shape n 16 buf
    → 24 + 4 * n ≤ length buf
    → payload ≡ drop (24 + 4 * n) buf
    → length payload ≡ uint_at 8 (16 + 4 * n) buf
    → put_shape h.shape ++ (put_be 8 (length payload) ++ payload) ≡ drop 16 buf
body_bytes buf payload n max_payload h bytes shape long rest size =
    ap (λ s. put_shape s ++ (put_be 8 (length payload) ++ payload)) shape
    ∙ ap (λ k. put_shape (read_shape n 16 buf) ++ (put_be 8 k ++ payload)) size
    ∙ ap (λ l. put_shape (read_shape n 16 buf) ++ (put_be 8 (uint_at 8 (16 + 4 * n) buf) ++ l))
        (rest ∙ ap (λ k. drop k buf) (omega arith))
    ∙ ap (λ l. put_shape (read_shape n 16 buf) ++ l)
        (put_be-uint_at 8 (16 + 4 * n) buf bytes (omega arith))
    ∙ put_shape-read_shape n 16 buf bytes (omega arith)

-- What an accepted buffer shows.
pub record Accepted (buf : List ℕ) (max_payload : ℕ) (h : ActivationHeader) (payload : List ℕ)
    : Type 0 where
  pub bytes : activation_bytes h payload ≡ buf
  pub valid : validate_shape h.shape ≡ ok tt
  pub expected : expected_bytes h ≡ ok (length payload)
  pub fits : length payload ≤ max_payload

-- The declared length of an accepted body is what is left of the buffer, and within the cap.
declared_length :
    (n u len max_payload : ℕ)
    → n ≤ 8
    → 24 + 4 * n ≤ len
    → len < 2 ^ 63
    → max_payload < 2 ^ 63
    → u < 2 ^ 64
    → int_lt max_payload u ≡ not true
    → int_add (24 + 4 * n) u ≡ len
    → (24 + 4 * n + u ≡ len) × (u ≤ max_payload)
declared_length n u len max_payload dims long short cap word within sum =
    (omega arith, ground arith)

uint_at-lt :
    (off : ℕ) (buf : List ℕ) → IsBytes buf → off + 8 ≤ length buf → uint_at 8 off buf < 2 ^ 64
uint_at-lt off buf bytes long =
    let size : length (take 8 (drop off buf)) ≡ 8 =
      omega (arith, length-take 8 (drop off buf), length-drop off buf) in
    subst (λ k. uint_at 8 off buf < 256 ^ k) size
      (from_be-lt (take 8 (drop off buf))
        (All-take IsByte 8 (drop off buf) (All-drop IsByte off buf bytes)))

Body-Accepted :
    (buf payload : List ℕ) (n max_payload : ℕ)
    → IsBytes buf
    → length buf < 2 ^ 63
    → max_payload < 2 ^ 63
    → Head buf
    → n ≡ length (head_of buf).shape
    → n ≡ byte_at buf 15
    → Body (head_of buf) buf max_payload payload
    → Accepted buf max_payload (head_of buf) payload
unfolding activation_bytes
Body-Accepted buf payload n max_payload bytes short cap head dims ndim b =
    let u = uint_at 8 (16 + 4 * length (head_of buf).shape) buf in
    let rest = drop (24 + 4 * length (head_of buf).shape) buf in
    let facts : (24 + 4 * length (head_of buf).shape + u ≡ length buf) × (u ≤ max_payload) =
      declared_length (length (head_of buf).shape) u (length buf) max_payload (omega (arith, head))
        (omega (arith, head)) short cap
        (uint_at-lt (16 + 4 * length (head_of buf).shape) buf bytes (omega (arith, head))) b.within
        b.sum in
    let whole : payload ≡ rest =
      b.rest
      ∙ take_of_length-le u rest
          (omega (arith, length-drop (24 + 4 * length (head_of buf).shape) buf)) in
    let size : length payload ≡ u =
      ap length whole ∙ omega (arith, length-drop (24 + 4 * length (head_of buf).shape) buf) in
    record {
      bytes =
          ap (λ l. magic ++ 1 ∷ 1 ∷ 0 ∷ 0 ∷ l)
            (ap
                (λ k.
                  put_be 2 (uint_at 2 8 buf)
                  ++ (put_be 4 (uint_at 4 10 buf)
                      ++ (byte_at buf 14
                          ∷ k
                          ∷ (put_shape (head_of buf).shape
                              ++ (put_be 8 (length payload) ++ payload)))))
                (omega (arith, head))
              ∙ fixed_bytes buf _ bytes (omega (arith, head)) (
                  sym (
                    body_bytes buf payload (length (head_of buf).shape) max_payload (head_of buf)
                      bytes (ap (λ k. read_shape k 16 buf) (sym ndim ∙ dims)) (omega (arith, head))
                      whole size)))
          ∙ prefix_bytes buf head;
      valid = b.valid;
      expected = b.expected ∙ ap ok (sym size);
      fits = omega arith;
    }

pub decode_activation-Accepted :
    (buf : List ℕ) (max_payload : ℕ) (h : ActivationHeader) (payload : List ℕ)
    → IsBytes buf
    → length buf < 2 ^ 63
    → max_payload < 2 ^ 63
    → decode_activation buf max_payload ≡ ok (h, payload)
    → Accepted buf max_payload h payload
decode_activation-Accepted buf max_payload h payload bytes short cap e =
    let (head, body) = decode_activation-ok buf max_payload h payload e in
    let (eq, b) = decode_body-ok (head_of buf) h buf max_payload body in
    let n = byte_at buf 15 in
    let dims : length (read_shape n 16 buf) ≡ n = length-read_shape n 16 buf in
    subst (λ g. Accepted buf max_payload g payload) (sym eq)
      (Body-Accepted buf payload n max_payload bytes short cap head (sym dims) refl b)

-- A buffer that `DecodeActivation` accepts is the one encoding of what it returns.
pub encode-decode :
    (buf : List ℕ) (max_payload : ℕ) (h : ActivationHeader) (payload : List ℕ)
    → IsBytes buf
    → length buf < 2 ^ 63
    → max_payload < 2 ^ 63
    → decode_activation buf max_payload ≡ ok (h, payload)
    → encode_activation h payload ≡ ok buf
unfolding encode_activation
encode-decode buf max_payload h payload bytes short cap e =
    ground (arith, decode_activation-Accepted buf max_payload h payload bytes short cap e)
