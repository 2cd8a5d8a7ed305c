-- ===== src/Gateway/Lru/History.antt =====
-- Whole histories of a registry: no call panics, and what a registry holds is what the list of its
-- entries in the order of use holds.
use sofmat.Base.{
  ℕ, ◌≤◌, ◌<◌, ◌≡◌, refl, sym, ap, subst, ◌∙◌, List, [], ◌∷◌, some, length, Result, ok, >>=-eq-ok,
  if_pos, arith, Option-cases, inl, inr,
}
use mathlib.Core.List.{foldl}
use sofmat.Base.Assoc.{
  keys, lookup, insert, delete, lookup-delete_self, lookup-delete_ne, delete-Distinct,
  length-delete, delete_absent, lookup-insert,
}
use sofmat.Gateway.Lru.{
  Panic, Lru, Call, remembers, forgets, reads, empty, remove_first, touch, make_room, remember,
  forget, read, run,
}
use sofmat.Gateway.Lru.Refines.{
  Represents, room, note, make_room-Represents, insert-Represents, remove_first-keys, touch-keys,
  lookup-newest_old, newest-Distinct, length-newest_old,
}

module _ {K V : Type 0} (dec : Discrete K) where
  -- `Record` never panics, and its entry becomes the newest.
  pub remember-Represents :
      (c : Lru K V) (k : K) (v : V) (l : List (K × V))
      → Represents dec c l
      → (c' : Lru K V) × (remember dec c k v ≡ ok c')
        × (c'.capacity ≡ c.capacity)
        × Represents dec c' (note dec c.capacity l (remembers k v))
  unfolding remember note
  remember-Represents c k v l r =
      let (d, made, cap, r', free) = make_room-Represents dec c k l r in
      (
        record d { values = insert dec k v d.values; order = touch dec k d.order },
        rw (made, remember) refl,
        cap,
        insert-Represents dec d k v (room dec c.capacity k l) r' (λ miss. rw cap (free miss)),
      )

  forget-Represents :
      (c : Lru K V) (k : K) (l : List (K × V))
      → Represents dec c l
      → Represents dec (forget dec c k) (delete dec k l)
  unfolding forget
  forget-Represents c k l r = elim (Option-cases (lookup dec k l)) [
    | inl miss ↦ rw (r.same k ∙ miss, forget) (rw (delete_absent dec k l miss) r)
    | inr (w, hit) ↦
        rw (r.same k ∙ hit, forget)
          (record {
            order_keys = ap (remove_first dec k) r.order_keys ∙ remove_first-keys dec k l;
            same = deleted;
            distinct = delete-Distinct dec k l r.distinct;
            distinct_values = delete-Distinct dec k c.values r.distinct_values;
            size = omega (
              arith,
              length-delete dec k w l hit,
              length-delete dec k w c.values (r.same k ∙ hit),
              r.size,
            );
            bounded = omega (arith, length-delete dec k w l hit, r.bounded);
            positive = r.positive;
          })
  ]
    where
      deleted : (j : K) → lookup dec j (delete dec k c.values) ≡ lookup dec j (delete dec k l)
      deleted j = elim (dec k j) [
        | yes p ↦
            subst (λ i. lookup dec i (delete dec k c.values) ≡ lookup dec i (delete dec k l)) p
              (lookup-delete_self dec k c.values r.distinct_values
                ∙ sym (lookup-delete_self dec k l r.distinct))
        | no p ↦ lookup-delete_ne dec k j c.values p ∙ r.same j ∙ sym (lookup-delete_ne dec k j l p)
      ]

  read-Represents :
      (c : Lru K V) (k : K) (l : List (K × V)) (cap : ℕ)
      → Represents dec c l
      → Represents dec (read dec c k).0 (note dec cap l (reads k))
  unfolding read note
  read-Represents c k l cap r = elim (Option-cases (lookup dec k l)) [
    | inl miss ↦ rw (r.same k ∙ miss, read) (rw (miss, note) r)
    | inr (w, hit) ↦
        rw (r.same k ∙ hit, read)
          (rw (hit, note)
            (record {
              order_keys = ap (touch dec k) r.order_keys ∙ touch-keys dec k w l;
              same = λ j. r.same j ∙ sym (lookup-newest_old dec k j w l r.distinct hit);
              distinct = newest-Distinct dec k w l r.distinct;
              distinct_values = r.distinct_values;
              size = r.size ∙ sym (length-newest_old dec k w w l hit);
              bounded = omega (arith, length-newest_old dec k w w l hit, r.bounded);
              positive = r.positive;
            }))
  ]

  forget-capacity : (c : Lru K V) (k : K) → (forget dec c k).capacity ≡ c.capacity
  unfolding forget
  forget-capacity c k = ground arith

  read-capacity : (c : Lru K V) (k : K) → (read dec c k).0.capacity ≡ c.capacity
  unfolding read
  read-capacity c k = ground arith

  -- Every history of calls on a registry runs to its end without a panic, and leaves the registry
  -- with the entries that the same history leaves in the list ordered by use.
  pub run-Represents :
      (calls : List (Call K V)) (c : Lru K V) (l : List (K × V))
      → Represents dec c l
      → (c' : Lru K V) × (run dec calls c ≡ ok c')
        × Represents dec c' (foldl (note dec c.capacity) l calls)
  unfolding run note
  run-Represents [] c l r = (c, refl, r)
  run-Represents (remembers k v ∷ calls) c l r =
      let (d, done, cap, r') = remember-Represents c k v l r in
      let (c', ran, last) = run-Represents calls d _ r' in (c', rw done ran, rw cap at last)
  run-Represents (forgets k ∷ calls) c l r =
      let (c', ran, last) =
        run-Represents calls (forget dec c k) (delete dec k l) (forget-Represents c k l r) in
      (
        c',
        ran,
        subst (λ n. Represents dec c' (foldl (note dec n) (delete dec k l) calls))
            (forget-capacity c k) last,
      )
  run-Represents (reads k ∷ calls) c l r =
      let l' = note dec c.capacity l (reads k) in
      let (c', ran, last) =
        run-Represents calls (read dec c k).0 l' (read-Represents c k l c.capacity r) in
      (
        c',
        ran,
        subst (λ n. Represents dec c' (foldl (note dec n) l' calls)) (read-capacity c k) last,
      )

  empty-Represents : (cap : ℕ) → 0 < cap → Represents {V = V} dec (empty cap) []
  empty-Represents cap h = record {
    order_keys = refl;
    same = λ k. refl;
    distinct = tt;
    distinct_values = tt;
    size = refl;
    bounded = omega arith;
    positive = h;
  }

  -- From the empty registry no history of calls panics, the registry never holds more than its
  -- capacity, its order has just the keys of the map, and every lookup answers as the list of entries
  -- in the order of use does.
  pub run_from_empty :
      (calls : List (Call K V)) (cap : ℕ)
      → 0 < cap
      → (c : Lru K V) × (run dec calls (empty cap) ≡ ok c)
        × (length c.values ≤ c.capacity)
        × (c.order ≡ keys (foldl (note dec cap) [] calls))
        × ((k : K) → lookup dec k c.values ≡ lookup dec k (foldl (note dec cap) [] calls))
  run_from_empty calls cap h =
      let (c, ran, r) = run-Represents calls (empty cap) [] (empty-Represents cap h) in
      (c, ran, omega (arith, r.size, r.bounded), r.order_keys, r.same)

  ok-injective : (a b : Lru K V) → ◌≡◌ {A = Result Panic (Lru K V)} (ok a) (ok b) → a ≡ b
  ok-injective a b e = cc

  pub lookup-remember :
      (c c' : Lru K V) (k : K) (v : V)
      → remember dec c k v ≡ ok c'
      → lookup dec k c'.values ≡ some v
  unfolding remember
  lookup-remember c c' k v e =
      let (d, made, done) = >>=-eq-ok (make_room dec c k) _ e in
      ap (λ (m : Lru K V). lookup dec k m.values) (sym (ok-injective _ c' done))
      ∙ lookup-insert dec k k v d.values
      ∙ if_pos (dec k k) refl (some v) (lookup dec k d.values)

  -- What was just recorded is read back.
  pub read-remember :
      (c c' : Lru K V) (k : K) (v : V) → remember dec c k v ≡ ok c' → (read dec c' k).1 ≡ some v
  unfolding read
  read-remember c c' k v e = rw (lookup-remember c c' k v e, read) refl
