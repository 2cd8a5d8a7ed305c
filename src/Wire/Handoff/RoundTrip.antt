-- ===== src/Wire/Handoff/RoundTrip.antt =====
-- A state that is sent is received, over every transport that keeps the order of its messages.
use native.Mathlib.Nat.{mod-eq_of_lt, add-zero}
use sofmat.Base.{
  ℕ, zero, suc, ◌+◌, ◌*◌, ◌%◌, ◌^◌, ◌<◌, ◌≤◌, ◌≡◌, refl, ap, ◌∙◌, List, [], ◌∷◌, ◌++◌, append_assoc,
  append-nil, true, false, arith, ltb, leb, ◌==◌, length, length-take, take, drop,
  take_of_length-le, ok, int_lt,
}
use sofmat.Wire.Bytes.{put_be, uint_at, bytes_eq_refl}
use sofmat.Wire.Framing.RoundTrip.{uint_at-put_be}
use sofmat.Wire.Handoff.{
  Transport, Message, header, stage_manifest, stage_chunk, chunk_at, n_chunks, hex, manifest,
  send_message, send_chunks, send_all, send_kv, recv_message, recv_chunks, recv_kv,
}
use sofmat.Wire.Handoff.Chunks.{take-chunk_at, length-chunk_at-le, n_chunks-covers}

-- What the hand-off needs of a transport. `Wrote s ms t`: between `s` and `t` the messages `ms` were
-- sent. `Carries ms s`: the messages `ms` wait at `s`, in this order.
pub record IsFifo (tx : Transport) : Type 1 where
  pub IsReady : tx.State → Type 0
  pub Wrote : tx.State → List Message → tx.State → Type 0
  pub Carries : List Message → tx.State → Type 0
  pub wrote-nil : (s : tx.State) → Wrote s [] s
  pub send-Wrote :
      (s0 s : tx.State) (ms : List Message) (stage index : ℕ) (payload : List ℕ)
      → IsReady s
      → stage < 2 ^ 16
      → index < 2 ^ 32
      → length payload ≤ tx.max_payload s
      → length payload ≤ 2 ^ 24
      → Wrote s0 ms s
      → (t : tx.State) × (tx.send (header stage index payload) payload s ≡ (ok tt, t))
        × Wrote s0 (ms ++ (header stage index payload, payload) ∷ []) t
        × IsReady t
        × (tx.max_payload t ≡ tx.max_payload s)
  pub recv-Carries :
      (s : tx.State) (m : Message) (ms : List Message)
      → Carries (m ∷ ms) s
      → (t : tx.State) × (tx.recv s ≡ (ok m, t)) × Carries ms t

==-refl : (a : ℕ) → (a == a) ≡ true
==-refl a = ground arith

not_ltb : (a b : ℕ) → b ≤ a → ltb a b ≡ false
not_ltb a b h = ground arith

-- The messages of the chunks from `i` on.
abbrev pub chunk_messages : ℕ → ℕ → ℕ → List ℕ → List Message
chunk_messages zero i size blob = []
chunk_messages (suc left) i size blob =
    (header stage_chunk (i % 2 ^ 32) (chunk_at blob size i), chunk_at blob size i)
    ∷ chunk_messages left (suc i) size blob

module _ (tx : Transport) (sum256 : List ℕ → List ℕ) (fifo : IsFifo tx) where
  -- The messages of one hand-off.
  abbrev pub messages : ℕ → List ℕ → ℕ → List Message
  messages seq_id blob size =
      (header stage_manifest seq_id (manifest tx sum256 blob size), manifest tx sum256 blob size)
      ∷ chunk_messages (n_chunks (length blob) size) 0 size blob

  send_chunks-Wrote :
      (left i size : ℕ) (blob : List ℕ) (s0 s : tx.State) (ms : List Message)
      → fifo.IsReady s
      → size ≤ tx.max_payload s
      → size ≤ 2 ^ 24
      → fifo.Wrote s0 ms s
      → (t : tx.State) × (send_chunks tx sum256 left i size blob s ≡ (ok tt, t))
        × fifo.Wrote s0 (ms ++ chunk_messages left i size blob) t
  unfolding send_chunks send_message
  send_chunks-Wrote zero i size blob s0 s ms ready cap dim w = (s, refl, rw (append-nil ms) w)
  send_chunks-Wrote (suc left) i size blob s0 s ms ready cap dim w =
      let (u, sent, w', ready', same) =
        fifo.send-Wrote s0 s ms stage_chunk (i % 2 ^ 32) (chunk_at blob size i) ready (omega arith)
          (omega arith) (omega (arith, length-chunk_at-le blob size i))
          (omega (arith, length-chunk_at-le blob size i)) w in
      let (t, rest, w2) =
        send_chunks-Wrote left (suc i) size blob s0 u _ ready' (omega arith) dim w' in
      (t, rw (sent, send_chunks) rest, rw append_assoc at w2)

  recv_step :
      (left i total : ℕ) (blob payload : List ℕ) (s u : tx.State)
      → tx.recv s ≡ (ok (header stage_chunk (i % 2 ^ 32) payload, payload), u)
      → ltb total (length (blob ++ payload)) ≡ false
      → recv_chunks tx sum256 (suc left) i total blob s
        ≡ recv_chunks tx sum256 left (suc i) total (blob ++ payload) u
  unfolding recv_chunks recv_message
  recv_step left i total blob payload s u got fits =
      rw (got, recv_chunks) (rw (==-refl (i % 2 ^ 32)) (rw fits refl))

  recv_chunks-Carries :
      (left i size total : ℕ) (blob : List ℕ) (more : List Message) (s : tx.State)
      → total ≡ length blob
      → fifo.Carries (chunk_messages left i size blob ++ more) s
      → (t : tx.State) × (recv_chunks tx sum256 left i total (take (i * size) blob) s
          ≡ (ok (take ((left + i) * size) blob), t))
        × fifo.Carries more t
  unfolding recv_chunks recv_message
  recv_chunks-Carries zero i size total blob more s e c =
      (s, ap (λ k. (ok (take (k * size) blob), s)) (omega arith), c)
  recv_chunks-Carries (suc left) i size total blob more s e c =
      let (u, got, c') = fifo.recv-Carries s _ _ c in
      let (t, rest, c2) = recv_chunks-Carries left (suc i) size total blob more u e c' in
      let fits : ltb total (length (take (i * size) blob ++ chunk_at blob size i)) ≡ false =
        rw (take-chunk_at blob size i) (
          not_ltb total (length (take (suc i * size) blob))
            (omega (arith, length-take (suc i * size) blob))) in
      (
        t,
        recv_step left i total (take (i * size) blob) (chunk_at blob size i) s u got fits
            ∙ ap (λ l. recv_chunks tx sum256 left (suc i) total l u) (take-chunk_at blob size i)
            ∙ rest
            ∙ ap (λ k. (ok (take (k * size) blob), t)) (omega arith),
        c2,
      )

  length-manifest :
      (blob : List ℕ) (size : ℕ)
      → length (sum256 blob) ≡ 32
      → length (manifest tx sum256 blob size) ≡ 44
  unfolding manifest put_be
  length-manifest blob size h = omega arith

  send_kv_lem :
      (seq_id size : ℕ) (blob : List ℕ) (s u t : tx.State)
      → 0 < size
      → 0 < tx.max_payload s
      → size ≤ tx.max_payload s
      → tx.max_payload s < 2 ^ 63
      → tx.send
          (header stage_manifest seq_id (manifest tx sum256 blob size))
          (manifest tx sum256 blob size)
          s
        ≡ (ok tt, u)
      → send_chunks tx sum256 (n_chunks (length blob) size) 0 size blob u ≡ (ok tt, t)
      → send_kv tx sum256 seq_id blob size s ≡ (ok (hex (sum256 blob)), t)
  unfolding send_kv send_all send_message
  send_kv_lem seq_id size blob s u t some_bytes room cap word sent rest =
      let positive : int_lt 0 size ≡ true = ground arith in
      let roomy : int_lt 0 (tx.max_payload s) ≡ true = ground arith in
      let within : int_lt (tx.max_payload s) size ≡ false = ground arith in
      rw positive (rw roomy (rw within (rw sent (rw rest refl))))

  -- `SendKV` sends the manifest and the chunks, and reports the sum.
  pub send_kv-Wrote :
      (seq_id size : ℕ) (blob : List ℕ) (s : tx.State)
      → fifo.IsReady s
      → seq_id < 2 ^ 32
      → 0 < size
      → size ≤ tx.max_payload s
      → size ≤ 2 ^ 24
      → 44 ≤ tx.max_payload s
      → tx.max_payload s < 2 ^ 63
      → length (sum256 blob) ≡ 32
      → (t : tx.State) × (send_kv tx sum256 seq_id blob size s ≡ (ok (hex (sum256 blob)), t))
        × fifo.Wrote s (messages seq_id blob size) t
  unfolding send_kv send_all send_message
  send_kv-Wrote seq_id size blob s ready seq some_bytes cap dim room word sized =
      let long = length-manifest blob size sized in
      let (u, sent, w, ready', same) =
        fifo.send-Wrote s s [] stage_manifest seq_id (manifest tx sum256 blob size) ready
          (omega arith) seq (omega arith) (omega arith) (fifo.wrote-nil s) in
      let (t, rest, w2) =
        send_chunks-Wrote (n_chunks (length blob) size) 0 size blob s u _ ready' (omega arith) dim
          w in
      (t, send_kv_lem seq_id size blob s u t some_bytes (omega arith) cap word sent rest, w2)

  record IsManifest (m blob : List ℕ) (size : ℕ) : Type 0 where
    total_at : uint_at 8 0 m ≡ length blob
    count_at : uint_at 4 8 m ≡ n_chunks (length blob) size
    sum_at : take 32 (drop 12 m) ≡ sum256 blob
    sized : length m ≡ 44

  manifest-IsManifest :
      (blob : List ℕ) (size : ℕ)
      → length blob < 2 ^ 63
      → n_chunks (length blob) size < 2 ^ 32
      → length (sum256 blob) ≡ 32
      → IsManifest (manifest tx sum256 blob size) blob size
  unfolding manifest put_be
  manifest-IsManifest blob size word count sized = record {
    total_at = uint_at-put_be 8 0 (length blob) (manifest tx sum256 blob size) _ (omega arith) refl;
    count_at =
        uint_at-put_be 4 8 (n_chunks (length blob) size % 2 ^ 32) (manifest tx sum256 blob size) _
          (omega arith) refl
        ∙ mod-eq_of_lt count;
    sum_at = take_of_length-le 32 (sum256 blob) (omega arith);
    sized = length-manifest blob size sized;
  }

  recv_kv_lem :
      (seq_id size max_alloc : ℕ) (blob m : List ℕ) (s u t : tx.State)
      → IsManifest m blob size
      → length blob < 2 ^ 63
      → length blob ≤ max_alloc
      → tx.recv s ≡ (ok (header stage_manifest seq_id m, m), u)
      → recv_chunks tx sum256 (n_chunks (length blob) size) 0 (length blob) [] u ≡ (ok blob, t)
      → recv_kv tx sum256 max_alloc s ≡ (ok (seq_id, blob), t)
  unfolding recv_kv recv_message
  recv_kv_lem seq_id size max_alloc blob m s u t im word alloc got rest =
      let low : ltb (length blob) (2 ^ 63) ≡ true = ground arith in
      let fits : leb (length blob) max_alloc ≡ true = ground arith in
      rw (got, recv_kv)
        (rw im.sized (
          rw im.total_at (
            rw low (
              rw fits (
                rw im.count_at (
                  rw rest (
                    rw (==-refl (length blob))
                      (rw im.sum_at (rw (bytes_eq_refl (sum256 blob)) refl)))))))))

  -- `RecvKV` gives back the sequence and the blob.
  pub recv_kv-Carries :
      (seq_id size max_alloc : ℕ) (blob : List ℕ) (more : List Message) (s : tx.State)
      → 0 < size
      → n_chunks (length blob) size < 2 ^ 32
      → length blob < 2 ^ 63
      → length blob ≤ max_alloc
      → length (sum256 blob) ≡ 32
      → fifo.Carries (messages seq_id blob size ++ more) s
      → (t : tx.State) × (recv_kv tx sum256 max_alloc s ≡ (ok (seq_id, blob), t))
        × fifo.Carries more t
  unfolding recv_kv recv_message
  recv_kv-Carries seq_id size max_alloc blob more s some_bytes count word alloc sized c =
      let m = manifest tx sum256 blob size in
      let (u, got, c') = fifo.recv-Carries s _ _ c in
      let (t, rest, c2) =
        recv_chunks-Carries (n_chunks (length blob) size) 0 size (length blob) blob more u refl
          c' in
      let origin : 0 ≡ 0 * size = omega arith in
      let whole : take ((n_chunks (length blob) size + 0) * size) blob ≡ blob =
        take_of_length-le ((n_chunks (length blob) size + 0) * size) blob
          (rw add-zero (n_chunks-covers (length blob) size some_bytes)) in
      (
        t,
        recv_kv_lem seq_id size max_alloc blob m s u t
            (manifest-IsManifest blob size word count sized) word alloc got
            (ap
                (λ k.
                  recv_chunks tx sum256 (n_chunks (length blob) size) 0 (length blob) (take k blob)
                    u)
                origin
              ∙ rest
              ∙ ap (λ l. (ok l, t)) whole),
        c2,
      )
