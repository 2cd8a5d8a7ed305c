-- ===== src/Wire/Handoff.antt =====
-- internal/kvhandoff/kv_handoff.go: a KV state in chunks over a transport, reassembled and checked at
-- the other end. `sum256` stands for SHA-256, and `max_alloc` for the largest slice that Go's `make`
-- gives: a capacity that is negative or larger panics.
pub mod Chunks
pub mod RoundTrip
pub mod Verified
pub mod Tcp
use sofmat.Base.{
  ℕ, zero, suc, ◌+◌, ◌-◌, ◌*◌, ◌/◌, ◌%◌, ◌^◌, ◌<◌, List, [], ◌∷◌, ◌++◌, map, Bool, not, ◌||◌, ◌&&◌,
  ltb, leb, ◌==◌, if◌then◌else◌, length, take, drop, min, Result, ok, err, int_lt, int_sign,
}
use sofmat.Base.Effects.{Act, bind_result, ◌>>=◌, ◌>>◌, return, fail, map_error}
use sofmat.Wire.Bytes.{bytes_eq, put_be, from_be_acc, uint_at}
use sofmat.Wire.Framing.{ActivationHeader, uint8}

abbrev pub stage_manifest : ℕ
stage_manifest = 0xFFFE

abbrev pub stage_chunk : ℕ
stage_chunk = 0xFFFD

abbrev pub default_chunk : ℕ
default_chunk = 4 * 1024 * 1024

abbrev pub hash_len : ℕ
hash_len = 32

abbrev pub manifest_len : ℕ
manifest_len = 8 + 4 + hash_len

abbrev pub max_seq_id : ℕ
max_seq_id = 2 ^ 31 - 1

-- `F` is the error type of the transport.
pub data HandoffError (F : Type 0) : Type 0 where
  channel : F → HandoffError F
  chunk_too_large no_manifest manifest_size panicked : HandoffError F
  no_chunk out_of_order exceeds_total wrong_total bad_sum seq_too_large : HandoffError F

-- `SeqIDToSlot`, to the `int32` of the same value.
unfoldable pub seq_id_to_slot : {F : Type 0} → ℕ → Result (HandoffError F) ℕ
seq_id_to_slot seq_id = if ltb max_seq_id seq_id then err seq_too_large else ok seq_id

abbrev pub Message : Type 0
Message = ActivationHeader × List ℕ

-- The interface `Transport`.
pub record Transport : Type 1 where
  pub State : Type 0
  pub Failure : Type 0
  pub send : ActivationHeader → List ℕ → Act Failure State (Unit {0})
  pub recv : Act Failure State Message
  pub max_payload : State → ℕ

-- The header of a payload of bytes.
abbrev pub header : ℕ → ℕ → List ℕ → ActivationHeader
header stage index payload = record {
  stage_id = stage;
  token_index = index;
  dtype = uint8;
  shape = (length payload % 2 ^ 32) ∷ [];
}

-- `blob[lo:hi]` of the chunk `i`.
abbrev pub chunk_at : List ℕ → ℕ → ℕ → List ℕ
chunk_at blob size i =
    let lo = i * size in
    let hi = if ltb (length blob) (lo + size) then length blob else lo + size in
    take (hi - lo) (drop lo blob)

-- The number of chunks: Go's `int`s here are sizes of buffers, which do not wrap.
abbrev pub n_chunks : ℕ → ℕ → ℕ
n_chunks total size = if ltb 0 total then (total + size - 1) / size else 0

hex_digit : ℕ → ℕ
hex_digit d = if ltb d 10 then b'0' + d else b'a' + (d - 10)

-- `%x` of a byte string.
pub hex : List ℕ → List ℕ
hex [] = []
hex (b ∷ bs) = hex_digit (b / 16) ∷ hex_digit (b % 16) ∷ hex bs

module _ (tx : Transport) (sum256 : List ℕ → List ℕ) where
  open tx use {State, Failure, send, recv, max_payload}

  abbrev Step : Type 0 → Type 0
  Step A = Act (HandoffError Failure) State A

  send_message : ℕ → ℕ → List ℕ → Step (Unit {0})
  send_message stage index payload s =
      map_error channel (send (header stage index payload) payload s)

  -- The loop of `SendKV` from the chunk `i` on, with `left` chunks to send.
  send_chunks : ℕ → ℕ → ℕ → List ℕ → Step (Unit {0})
  send_chunks zero i size blob = return tt
  send_chunks (suc left) i size blob = do
    send_message stage_chunk (i % 2 ^ 32) (chunk_at blob size i)
    send_chunks left (suc i) size blob

  pub manifest : List ℕ → ℕ → List ℕ
  manifest blob size =
      put_be 8 (length blob) ++ (put_be 4 (n_chunks (length blob) size % 2 ^ 32) ++ sum256 blob)

  send_all : ℕ → List ℕ → ℕ → Step (List ℕ)
  send_all seq_id blob size = do
    send_message stage_manifest seq_id (manifest blob size)
    send_chunks (n_chunks (length blob) size) 0 size blob
    return (hex (sum256 blob))

  -- `SendKV`: the hexadecimal sum of the blob.
  pub send_kv : ℕ → List ℕ → ℕ → Step (List ℕ)
  send_kv seq_id blob chunk_bytes s =
      let size : ℕ = if int_lt 0 chunk_bytes then chunk_bytes else default_chunk in
      if int_lt 0 (max_payload s) && int_lt (max_payload s) size
      then (err chunk_too_large, s)
      else send_all seq_id blob size s

  recv_message : Step Message
  recv_message s = map_error channel (recv s)

  -- The loop of `RecvKV` from the chunk `i` on, with `left` chunks to come.
  recv_chunks : ℕ → ℕ → ℕ → List ℕ → Step (List ℕ)
  recv_chunks zero i total blob = return blob
  recv_chunks (suc left) i total blob = do
    (h, view) ← recv_message
    if h.stage_id == stage_chunk then return tt else fail no_chunk
    if h.token_index == i % 2 ^ 32 then return tt else fail out_of_order
    if ltb total (length (blob ++ view)) then fail exceeds_total else return tt
    recv_chunks left (suc i) total (blob ++ view)

  -- `RecvKV`: the sequence and its blob, once the size and the sum are verified.
  pub recv_kv : ℕ → Step (ℕ × List ℕ)
  recv_kv max_alloc = do
    (h, view) ← recv_message
    if h.stage_id == stage_manifest then return tt else fail no_manifest
    if length view == manifest_len then return tt else fail manifest_size
    let total = uint_at 8 0 view
    if ltb total int_sign && leb total max_alloc then return tt else fail panicked
    blob ← recv_chunks (uint_at 4 8 view) 0 total []
    if length blob == total then return tt else fail wrong_total
    if bytes_eq (sum256 blob) (take hash_len (drop 12 view)) then return tt else fail bad_sum
    return (h.token_index, blob)
