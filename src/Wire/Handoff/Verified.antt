-- ===== src/Wire/Handoff/Verified.antt =====
-- internal/kvhandoff/kv_handoff.go: what `RecvKV` has verified when it returns a blob.
use sofmat.Base.{
  ℕ, ◌≡◌, refl, sym, ap, ◌∙◌, List, [], Bool, true, false, ◌&&◌, arith, ltb, leb, ◌==◌,
  if◌then◌else◌, length, take, drop, ok, int_sign,
}
use sofmat.Base.Effects.{Act, ◌>>=◌, return, fail, >>=-eq-ok, map_error-eq-ok, ok-injective}
use sofmat.Wire.Bytes.{uint_at, bytes_eq, eq_of_bytes_eq}
use sofmat.Wire.Handoff.{
  Transport, Message, channel, panicked, wrong_total, bad_sum, no_manifest, manifest_size,
  recv_message, recv_chunks, recv_kv,
}

-- A test whose failure is an error.
check-eq-ok :
    {E S B : Type 0} (c : Bool) (x : E) (f : Act E S B) (s t : S) {b : B}
    → ((if c then return tt else fail x) >>= λ _. f) s ≡ (ok b, t)
    → (c ≡ true) × (f s ≡ (ok b, t))
check-eq-ok true x f s t e = (refl, e)
check-eq-ok false x f s t e = cc

eq_of_test : (a b : ℕ) → (a == b) ≡ true → a ≡ b
eq_of_test a b h = ground arith

module _ (tx : Transport) (sum256 : List ℕ → List ℕ) where
  recv_message-eq-ok :
      (s t : tx.State) (m : Message) → recv_message tx sum256 s ≡ (ok m, t) → tx.recv s ≡ (ok m, t)
  unfolding recv_message
  recv_message-eq-ok s t m e = map_error-eq-ok channel (tx.recv s) e

  -- A blob that is returned has the length and the SHA-256 sum that the manifest declared, and the
  -- sequence that its header named.
  pub recv_kv_sound :
      (max_alloc seq_id : ℕ) (blob : List ℕ) (s t : tx.State)
      → recv_kv tx sum256 max_alloc s ≡ (ok (seq_id, blob), t)
      → (m : Message) × (u : tx.State) × (tx.recv s ≡ (ok m, u))
        × (m.0.stage_id ≡ 0xFFFE)
        × (m.0.token_index ≡ seq_id)
        × (length blob ≡ uint_at 8 0 m.1)
        × (sum256 blob ≡ take 32 (drop 12 m.1))
  unfolding recv_kv
  recv_kv_sound max_alloc seq_id blob s t e =
      let (m, u, got, e1) = >>=-eq-ok (recv_message tx sum256) _ s t e in
      let (stage, e2) = check-eq-ok (m.0.stage_id == 0xFFFE) no_manifest _ u t e1 in
      let (size, e3) = check-eq-ok (length m.1 == 44) manifest_size _ u t e2 in
      let (alloc, e4) =
        check-eq-ok (ltb (uint_at 8 0 m.1) int_sign && leb (uint_at 8 0 m.1) max_alloc) panicked _ u
          t e3 in
      let (b, v, chunks, e5) =
        >>=-eq-ok (recv_chunks tx sum256 (uint_at 4 8 m.1) 0 (uint_at 8 0 m.1) []) _ u t e4 in
      let (total, e6) = check-eq-ok (length b == uint_at 8 0 m.1) wrong_total _ v t e5 in
      let (sum, e7) = check-eq-ok (bytes_eq (sum256 b) (take 32 (drop 12 m.1))) bad_sum _ v t e6 in
      let pair = ok-injective (m.0.token_index, b) (seq_id, blob) v t e7 in
      let same : b ≡ blob = ap (λ p. p.1) pair in
      let sums = eq_of_bytes_eq (sum256 b) (take 32 (drop 12 m.1)) sum in
      (
        m,
        u,
        recv_message-eq-ok s u m got,
        eq_of_test m.0.stage_id 0xFFFE stage,
        ap (λ p. p.0) pair,
        ap length (sym same) ∙ eq_of_test (length b) (uint_at 8 0 m.1) total,
        ap sum256 (sym same) ∙ sums,
      )
