-- ===== src/Gateway/Lru/Refines.antt =====
-- The registry refines a list of entries in the order of their last use.
use sofmat.Base.{
  ℕ, ◌+◌, ◌≤◌, ◌<◌, ◌≡◌, refl, sym, ap, subst, ◌∙◌, List, [], ◌∷◌, ◌++◌, none, some, ite, if_pos,
  if_neg, leb, if◌then◌else◌, length, length-append, ok, arith, Option-cases, Bool-cases, ◌⊎◌, inl,
  inr,
}
use sofmat.Base.Assoc.{
  keys, lookup, insert, delete, Distinct, lookup-cons_self, lookup-cons_ne, lookup-insert,
  lookup-delete_ne, lookup-delete_self, delete_absent, length-insert_new, length-insert_old,
  length-delete, insert-Distinct, delete-Distinct, lookup-append_last, append_last-Distinct,
}
use sofmat.Gateway.Lru.{Lru, Call, remembers, forgets, reads, remove_first, touch, evict, make_room}

-- The entries, oldest first. The map and the order of keys both stand for this list.
pub record Represents {K V : Type 0} (dec : Discrete K) (c : Lru K V) (l : List (K × V))
    : Type 0 where
  pub order_keys : c.order ≡ keys l
  pub same : (k : K) → lookup dec k c.values ≡ lookup dec k l
  pub distinct : Distinct dec l
  pub distinct_values : Distinct dec c.values
  pub size : length c.values ≡ length l
  pub bounded : length l ≤ c.capacity
  pub positive : 0 < c.capacity

module _ {K V : Type 0} (dec : Discrete K) where
  -- What the operations do to the entries.
  abbrev pub newest : K → V → List (K × V) → List (K × V)
  newest k v l = delete dec k l ++ (k, v) ∷ []

  abbrev tail : List (K × V) → List (K × V)
  tail [] = []
  tail (e ∷ l) = l

  unfoldable pub room : ℕ → K → List (K × V) → List (K × V)
  room cap k l = elim (lookup dec k l) [
    | none ↦ if leb cap (length l) then tail l else l
    | some _ ↦ l
  ]

  unfoldable pub note : ℕ → List (K × V) → Call K V → List (K × V)
  note cap l (remembers k v) = newest k v (room cap k l)
  note cap l (forgets k) = delete dec k l
  note cap l (reads k) = elim (lookup dec k l) [ none ↦ l | some v ↦ newest k v l ]

  pub remove_first-keys :
      (k : K) (l : List (K × V)) → remove_first dec k (keys l) ≡ keys (delete dec k l)
  unfolding remove_first delete
  remove_first-keys k [] = refl
  remove_first-keys k ((j, w) ∷ l) = ground (arith, remove_first-keys k l)

  keys-append : (l m : List (K × V)) → keys (l ++ m) ≡ keys l ++ keys m
  keys-append [] m = refl
  keys-append (e ∷ l) m = ap (◌∷◌ e.0) (keys-append l m)

  pub touch-keys : (k : K) (v : V) (l : List (K × V)) → touch dec k (keys l) ≡ keys (newest k v l)
  unfolding touch
  touch-keys k v l =
      ap (λ o. o ++ k ∷ []) (remove_first-keys k l)
      ∙ sym (keys-append (delete dec k l) ((k, v) ∷ []))

  pub lookup-newest :
      (k j : K) (v : V) (l : List (K × V))
      → Distinct dec l
      → lookup dec j (newest k v l) ≡ ite (dec k j) (some v) (lookup dec j l)
  lookup-newest k j v l d = ground (
    arith,
    lookup-append_last dec k j v (delete dec k l) (lookup-delete_self dec k l d),
    lookup-delete_ne dec k j l,
  )

  pub lookup-newest_old :
      (k j : K) (w : V) (l : List (K × V))
      → Distinct dec l
      → lookup dec k l ≡ some w
      → lookup dec j (newest k w l) ≡ lookup dec j l
  lookup-newest_old k j w l d hit = lookup-newest k j w l d ∙ elim (dec k j) [
    | yes p ↦ if_pos (dec k j) p (some w) (lookup dec j l) ∙ sym hit ∙ ap (λ i. lookup dec i l) p
    | no p ↦ if_neg (dec k j) p (some w) (lookup dec j l)
  ]

  pub length-newest_old :
      (k : K) (v w : V) (l : List (K × V))
      → lookup dec k l ≡ some w
      → length (newest k v l) ≡ length l
  length-newest_old k v w l h =
      omega (arith, length-append (delete dec k l) ((k, v) ∷ []), length-delete dec k w l h)

  length-newest_new :
      (k : K) (v : V) (l : List (K × V))
      → lookup dec k l ≡ none
      → length (newest k v l) ≡ length l + 1
  length-newest_new k v l h =
      length-append (delete dec k l) ((k, v) ∷ [])
      ∙ ap (λ m. length m + 1) (delete_absent dec k l h)

  pub newest-Distinct :
      (k : K) (v : V) (l : List (K × V)) → Distinct dec l → Distinct dec (newest k v l)
  newest-Distinct k v l d =
      append_last-Distinct dec k v (delete dec k l) (lookup-delete_self dec k l d)
        (delete-Distinct dec k l d)

  evict-Represents :
      (c : Lru K V) (j : K) (w : V) (l : List (K × V))
      → Represents dec c ((j, w) ∷ l)
      → (c' : Lru K V) × (evict dec c ≡ ok c') × (c'.capacity ≡ c.capacity) × Represents dec c' l
  unfolding evict
  evict-Represents c j w l r = (
    record c { values = delete dec j c.values; order = keys l },
    rw (r.order_keys, evict) refl,
    refl,
    record {
      order_keys = refl;
      same = same_after;
      distinct = r.distinct.1;
      distinct_values = delete-Distinct dec j c.values r.distinct_values;
      size =
          omega
            (arith, r.size, length-delete dec j w c.values (r.same j ∙ lookup-cons_self dec j w l));
      bounded = omega (arith, r.bounded);
      positive = r.positive;
    },
  )
    where
      same_after : (k : K) → lookup dec k (delete dec j c.values) ≡ lookup dec k l
      same_after k = elim (dec j k) [
        | yes p ↦
            subst (λ i. lookup dec i (delete dec j c.values) ≡ lookup dec i l) p
              (lookup-delete_self dec j c.values r.distinct_values ∙ sym r.distinct.0)
        | no p ↦ lookup-delete_ne dec j k c.values p ∙ r.same k ∙ lookup-cons_ne dec j k w l p
      ]

  -- A key that is new finds room.
  abbrev pub HasRoom : K → List (K × V) → ℕ → Type 0
  HasRoom k l cap = (lookup dec k l ≡ none) → length l < cap

  -- A full registry has an oldest entry, and the eviction drops it.
  full-Represents :
      (c : Lru K V) (l : List (K × V))
      → Represents dec c l
      → c.capacity ≤ length l
      → (c' : Lru K V) × (evict dec c ≡ ok c')
        × (c'.capacity ≡ c.capacity)
        × Represents dec c' (tail l)
        × (length (tail l) < c.capacity)
  full-Represents c [] r full = absurd (omega (arith, r.positive))
  full-Represents c ((j, w) ∷ l) r full =
      let (c', evicted, cap, r') = evict-Represents c j w l r in
      (c', evicted, cap, r', omega (arith, r.bounded))

  pub make_room-Represents :
      (c : Lru K V) (k : K) (l : List (K × V))
      → Represents dec c l
      → (c' : Lru K V) × (make_room dec c k ≡ ok c')
        × (c'.capacity ≡ c.capacity)
        × Represents dec c' (room c.capacity k l)
        × HasRoom k (room c.capacity k l) c.capacity
  unfolding make_room room
  make_room-Represents c k l r = elim (Option-cases (lookup dec k l)) [
    | inr (v, hit) ↦ (c, rw (r.same k ∙ hit, make_room) refl, refl, rw (hit, room) r, λ miss. cc)
    | inl miss ↦ elim (Bool-cases (leb c.capacity (length l))) [
      | inl full ↦
          let (c', evicted, cap, r', smaller) = full-Represents c l r (ground arith) in
          (
            c',
            rw (r.same k ∙ miss, make_room) (rw (r.size) (rw full evicted)),
            cap,
            rw (miss, room) (rw full r'),
            λ _. rw (miss, room) (rw full smaller),
          )
      | inr free ↦ (
        c,
        rw (r.same k ∙ miss, make_room) (rw (r.size) (rw free refl)),
        refl,
        rw (miss, room) (rw free r),
        λ _. rw (miss, room) (rw free (ground arith)),
      )
    ]
  ]

  pub insert-Represents :
      (c : Lru K V) (k : K) (v : V) (l : List (K × V))
      → Represents dec c l
      → HasRoom k l c.capacity
      → Represents dec
          (record c { values = insert dec k v c.values; order = touch dec k c.order })
          (newest k v l)
  insert-Represents c k v l r h = record {
    order_keys = ap (touch dec k) r.order_keys ∙ touch-keys k v l;
    same = λ j.
        lookup-insert dec k j v c.values
        ∙ ap (λ o. ite (dec k j) (some v) o) (r.same j)
        ∙ sym (lookup-newest k j v l r.distinct);
    distinct = newest-Distinct k v l r.distinct;
    distinct_values = insert-Distinct dec k v c.values r.distinct_values;
    size = sizes (Option-cases (lookup dec k l));
    bounded = bounds (Option-cases (lookup dec k l));
    positive = r.positive;
  }
    where
      sizes :
          ((lookup dec k l ≡ none) ⊎ ((w : V) × (lookup dec k l ≡ some w)))
          → length (insert dec k v c.values) ≡ length (newest k v l)
      sizes (inl miss) = omega (
        arith,
        length-insert_new dec k v c.values (r.same k ∙ miss),
        length-newest_new k v l miss,
        r.size,
      )
      sizes (inr (w, hit)) = omega (
        arith,
        length-insert_old dec k v w c.values (r.same k ∙ hit),
        length-newest_old k v w l hit,
        r.size,
      )

      bounds :
          ((lookup dec k l ≡ none) ⊎ ((w : V) × (lookup dec k l ≡ some w)))
          → length (newest k v l) ≤ c.capacity
      bounds (inl miss) = omega (arith, length-newest_new k v l miss, h miss)
      bounds (inr (w, hit)) = omega (arith, length-newest_old k v w l hit, r.bounded)
