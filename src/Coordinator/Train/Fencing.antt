-- ===== src/Coordinator/Train/Fencing.antt =====
-- internal/coordinator/train.go: `fence` of one instance and of several, on the server.
use sofmat.Base.{
  ◌≡◌, ◌≢◌, refl, sym, ap, ◌∙◌, Bool, true, false, List, [], ◌∷◌, Option, none, some, arith,
  Bool-cases, Option-cases, inl, inr,
}
use sofmat.Base.Strings.{Str, same}
use sofmat.Coordinator.Train.{
  Instance, Server, instance_of, fence_decode, fence_prefill, fence, fence_all,
}
use sofmat.Coordinator.Janitor.{contains}
use sofmat.Update.Guard.Refusals.{eq_of_same, same_self}
use sofmat.Coordinator.Train.Apart.{
  Apart, IsFenced, fence_decode_self, fence_decode-keeps, fence_decode-Apart, fence_prefill_self,
  fence_prefill-keeps, fence_prefill-Apart,
}

pub instances-fence :
    (key : Str) (on : Bool) (s : Server) → (fence key on s).instances ≡ s.instances
unfolding fence
instances-fence key on s = ground arith

pub instances-fence_all :
    (ks : List Str) (on : Bool) (s : Server) → (fence_all ks on s).instances ≡ s.instances
unfolding fence_all
instances-fence_all [] on s = refl
instances-fence_all (k ∷ ks) on s =
    instances-fence_all ks on (fence k on s) ∙ instances-fence k on s

txs-fence : (key : Str) (on : Bool) (s : Server) → (fence key on s).txs ≡ s.txs
unfolding fence
txs-fence key on s = ground arith

pub txs-fence_all : (ks : List Str) (on : Bool) (s : Server) → (fence_all ks on s).txs ≡ s.txs
unfolding fence_all
txs-fence_all [] on s = refl
txs-fence_all (k ∷ ks) on s = txs-fence_all ks on (fence k on s) ∙ txs-fence k on s

pub fence-none :
    (key : Str) (on : Bool) (s : Server) → instance_of key s.instances ≡ none → fence key on s ≡ s
unfolding fence
fence-none key on s h = rw (h, fence) refl

fence-bal :
    (key : Str) (on : Bool) (s : Server) (i : Instance)
    → instance_of key s.instances ≡ some i
    → (fence key on s).bal ≡ fence_decode on i s.bal
unfolding fence
fence-bal key on s i h = rw (h, fence) refl

pub fence-kp :
    (key : Str) (on : Bool) (s : Server) (i : Instance)
    → instance_of key s.instances ≡ some i
    → (fence key on s).kp ≡ fence_prefill on i s.kp
unfolding fence
fence-kp key on s i h = rw (h, fence) refl

some_same : (i j : Instance) → ◌≡◌ {A = Option Instance} (some i) (some j) → i ≡ j
some_same i j e = cc

fence_self : (key : Str) (s : Server) → IsFenced (fence key true s) key
fence_self key s i h =
    let at_i = sym (ap (instance_of key) (instances-fence key true s)) ∙ h in
    (
      rw (fence-bal key true s i at_i) (fence_decode_self i s.bal),
      rw (fence-kp key true s i at_i) (fence_prefill_self i s.kp),
    )

fence-keeps : (key k : Str) (s : Server) → IsFenced s k → IsFenced (fence key true s) k
fence-keeps key k s old j h =
    let at_j = sym (ap (instance_of k) (instances-fence key true s)) ∙ h in
    let (d, p) = old j at_j in
    elim (Option-cases (instance_of key s.instances)) [
      | inl missing ↦ rw (fence-none key true s missing) (d, p)
      | inr (i, at_i) ↦ (
        rw (fence-bal key true s i at_i) (fence_decode-keeps i j s.bal d),
        rw (fence-kp key true s i at_i) (fence_prefill-keeps i j s.kp p),
      )
    ]

fence-Apart :
    (key k : Str) (on : Bool) (s : Server)
    → Apart s.instances
    → key ≢ k
    → IsFenced s k
    → IsFenced (fence key on s) k
fence-Apart key k on s apart ne old j h =
    let at_j = sym (ap (instance_of k) (instances-fence key on s)) ∙ h in
    let (d, p) = old j at_j in
    elim (Option-cases (instance_of key s.instances)) [
      | inl missing ↦ rw (fence-none key on s missing) (d, p)
      | inr (i, at_i) ↦
          let no_clash = apart key k i j ne at_i at_j in
          (
            rw (fence-bal key on s i at_i) (fence_decode-Apart i j on s.bal no_clash ∙ d),
            rw (fence-kp key on s i at_i) (fence_prefill-Apart i j on s.kp no_clash ∙ p),
          )
    ]

pub fence_all-keeps :
    (ks : List Str) (k : Str) (s : Server) → IsFenced s k → IsFenced (fence_all ks true s) k
unfolding fence_all
fence_all-keeps [] k s old = old
fence_all-keeps (key ∷ ks) k s old =
    fence_all-keeps ks k (fence key true s) (fence-keeps key k s old)

-- Every key that is in the list is fenced.
pub fence_all_self :
    (ks : List Str) (k : Str) (s : Server) → contains ks k ≡ true → IsFenced (fence_all ks true s) k
unfolding fence_all contains
fence_all_self [] k s h = cc
fence_all_self (key ∷ ks) k s h = elim (Bool-cases (same key k)) [
  | inl here ↦ fence_all-keeps ks k (fence key true s) (rw (eq_of_same key k here) (fence_self k s))
  | inr there ↦ fence_all_self ks k (fence key true s) (rw there at h)
]

-- A key that is not in it stays fenced.
pub fence_all-Apart :
    (ks : List Str) (k : Str) (on : Bool) (s : Server)
    → Apart s.instances
    → contains ks k ≡ false
    → IsFenced s k
    → IsFenced (fence_all ks on s) k
unfolding fence_all contains
fence_all-Apart [] k on s apart h old = old
fence_all-Apart (key ∷ ks) k on s apart h old = elim (Bool-cases (same key k)) [
  | inl here ↦ ground (arith, here, h)
  | inr there ↦
      fence_all-Apart ks k on (fence key on s) (rw (instances-fence key on s) apart) (rw there at h)
        (fence-Apart key k on s apart (λ e. ground (arith, there, same_self k)) old)
]
