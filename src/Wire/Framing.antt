-- ===== src/Wire/Framing.antt =====
-- internal/framing/framing.go: the binary frames of the pipeline. A decoder validates every field
-- before it hands the payload out; each error site has a constructor.
pub mod Shape
pub mod RoundTrip
pub mod Canonical
pub mod Size
use sofmat.Base.{
  ℕ, zero, suc, ◌+◌, ◌-◌, ◌*◌, ◌%◌, ◌^◌, ◌≡◌, refl, List, [], ◌∷◌, ◌++◌, Bool, true, not, ◌&&◌, ltb,
  leb, ◌==◌, if◌then◌else◌, Option, none, some, length, take, drop, Result, ok, err, ◌>>=◌, ◌>>◌,
  guard, int_add, int_mul, int_lt, int_mod,
}
use sofmat.Wire.Bytes.{bytes_eq, put_be, from_be_acc, from_be, uint_at, byte_at}

pub data FrameError : Type 0 where
  short_frame bad_magic bad_version bad_msg_type reserved_bits too_many_dims truncated : FrameError
  bad_dim over_cap length_mismatch unknown_dtype payload_mismatch control_too_large : FrameError

abbrev pub magic : List ℕ
magic = b'S' ∷ b'O' ∷ b'F' ∷ b'M' ∷ []

abbrev pub proto_version : ℕ
proto_version = 1

abbrev pub max_ndim : ℕ
max_ndim = 8

abbrev pub max_dim : ℕ
max_dim = 2 ^ 24

abbrev pub default_max_payload : ℕ
default_max_payload = 8 * 1024 * 1024

abbrev pub prefix_len : ℕ
prefix_len = 8

abbrev pub act_fixed_len : ℕ
act_fixed_len = 8

abbrev pub len_len : ℕ
len_len = 8

-- `MsgType`, a byte.
abbrev pub msg_activation : ℕ
msg_activation = 1

abbrev pub msg_auth_challenge : ℕ
msg_auth_challenge = 2

abbrev pub msg_auth_response : ℕ
msg_auth_response = 3

abbrev pub msg_ack : ℕ
msg_ack = 4

abbrev pub msg_error : ℕ
msg_error = 5

-- `DType`, a byte.
abbrev pub uint8 : ℕ
uint8 = 5

-- The table `dtypeSize`.
unfoldable pub dtype_size : ℕ → Option ℕ
dtype_size d =
    if d == 1
    then some 4
    else if d == 2
    then some 2
    else if d == 3
    then some 2
    else if d == 4
    then some 1
    else if d == 5
    then some 1
    else if d == 6
    then some 4
    else if d == 7
    then some 8
    else none

pub record ActivationHeader : Type 0 where
  pub stage_id : ℕ
  pub token_index : ℕ
  pub dtype : ℕ
  pub shape : List ℕ

-- The loop of `ExpectedBytes`: an `int` product, which wraps.
unfoldable pub shape_product : ℕ → List ℕ → ℕ
shape_product n [] = n
shape_product n (d ∷ ds) = shape_product (int_mul n d) ds

abbrev size_or_error : Option ℕ → Result FrameError ℕ
size_or_error none = err unknown_dtype
size_or_error (some s) = ok s

unfoldable pub expected_bytes : ActivationHeader → Result FrameError ℕ
expected_bytes h = do s ← size_or_error (dtype_size h.dtype); ok (shape_product s h.shape)

-- The loop of `validateShape`.
unfoldable pub validate_dims : List ℕ → Result FrameError (Unit {0})
validate_dims [] = ok tt
validate_dims (d ∷ ds) = let rest = validate_dims ds in if ltb max_dim d then err bad_dim else rest

unfoldable pub validate_shape : List ℕ → Result FrameError (Unit {0})
validate_shape shape = do guard (leb (length shape) max_ndim) too_many_dims; validate_dims shape

unfoldable pub put_shape : List ℕ → List ℕ
put_shape [] = []
put_shape (d ∷ ds) = put_be 4 d ++ put_shape ds

-- The bytes that the encoder writes: prefix, fixed part, shape, length, payload.
unfoldable pub activation_bytes : ActivationHeader → List ℕ → List ℕ
activation_bytes h payload =
    magic
    ++ proto_version
      ∷ msg_activation
      ∷ 0
      ∷ 0
      ∷ (put_be 2 h.stage_id
          ++ (put_be 4 h.token_index
              ++ (h.dtype
                  ∷ (length h.shape % 256)
                  ∷ (put_shape h.shape ++ (put_be 8 (length payload) ++ payload)))))

-- `EncodeActivation`.
unfoldable pub encode_activation : ActivationHeader → List ℕ → Result FrameError (List ℕ)
encode_activation h payload = do
  validate_shape h.shape
  want ← expected_bytes h
  guard (length payload == want) payload_mismatch
  ok (activation_bytes h payload)

-- The loop of `DecodeActivation` that reads the dimensions from `off` on.
unfoldable pub read_shape : ℕ → ℕ → List ℕ → List ℕ
read_shape zero off buf = []
read_shape (suc n) off buf = uint_at 4 off buf ∷ read_shape n (off + 4) buf

-- The tests of the first eight bytes that both decoders make.
unfoldable pub check_prefix : List ℕ → Result FrameError (Unit {0})
check_prefix buf = do
  guard (bytes_eq (take 4 buf) magic) bad_magic
  guard (byte_at buf 4 == proto_version) bad_version

-- `DecodeActivation` behind the prefix, for the header whose fixed part is read.
unfoldable pub decode_body :
    ActivationHeader → List ℕ → ℕ → Result FrameError (ActivationHeader × List ℕ)
decode_body h buf max_payload = do
  validate_shape h.shape
  let off = prefix_len + act_fixed_len + 4 * length h.shape
  let n_bytes = uint_at len_len off buf
  guard (not (int_lt max_payload n_bytes)) over_cap
  guard (int_add (off + len_len) n_bytes == length buf) length_mismatch
  want ← expected_bytes h
  guard (n_bytes == want) payload_mismatch
  ok (h, take n_bytes (drop (off + len_len) buf))

-- `DecodeActivation`.
unfoldable pub decode_activation : List ℕ → ℕ → Result FrameError (ActivationHeader × List ℕ)
decode_activation buf max_payload = do
  guard (leb (prefix_len + act_fixed_len) (length buf)) short_frame
  check_prefix buf
  guard (byte_at buf 5 == msg_activation) bad_msg_type
  guard (byte_at buf 6 == 0 && byte_at buf 7 == 0) reserved_bits
  let ndim = byte_at buf 15
  guard (leb ndim max_ndim) too_many_dims
  guard (leb (prefix_len + act_fixed_len + 4 * ndim + len_len) (length buf)) truncated
  decode_body
      (record {
        stage_id = uint_at 2 8 buf;
        token_index = uint_at 4 10 buf;
        dtype = byte_at buf 14;
        shape = read_shape ndim (prefix_len + act_fixed_len) buf;
      })
      buf max_payload

-- `FrameControl`.
unfoldable pub frame_control : ℕ → List ℕ → Result FrameError (List ℕ)
frame_control mt payload = do
  guard (leb (length payload) 4096) control_too_large
  ok (magic ++ proto_version ∷ mt ∷ 0 ∷ 0 ∷ (put_be 8 (length payload) ++ payload))

-- `DecodeControl`.
unfoldable pub decode_control : List ℕ → Result FrameError (ℕ × List ℕ)
decode_control buf = do
  guard (leb (prefix_len + len_len) (length buf)) short_frame
  check_prefix buf
  guard (length (drop (prefix_len + len_len) buf) == uint_at 8 prefix_len buf) length_mismatch
  ok (byte_at buf 5, drop (prefix_len + len_len) buf)
