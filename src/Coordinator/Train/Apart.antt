-- ===== src/Coordinator/Train/Apart.antt =====
-- internal/coordinator/train.go: when two instances have a fence of their own, and what `fence` does to an
-- instance.
use sofmat.Base.{
  ◌≡◌, ◌≢◌, refl, Bool, true, false, ◌&&◌, ◌||◌, List, Option, none, some, arith, if◌then◌else◌,
  Bool-cases, inl, inr,
}
use sofmat.Base.Strings.{Str, same}
use sofmat.Coordinator.Balancer.{DecodeBalancer}
use sofmat.Coordinator.Balancer.Admin.{trim_slashes}
use sofmat.Coordinator.Train.{
  Instance, Server, Handoff, instance_of, is_decode, is_prefill, fence_decode, fence_prefill,
}
use sofmat.Coordinator.Train.Fences.{
  closed_to, set_excluded-closes, set_excluded-keeps, set_excluded-apart,
}

-- Two instances share a fence: one engine of the balancer, or the one flag of the handoff.
abbrev pub clash : Instance → Instance → Bool
clash i j =
    (is_decode i && is_decode j && same (trim_slashes j.endpoint) (trim_slashes i.endpoint))
    || (is_prefill i && is_prefill j)

-- No two instances share one.
abbrev pub Apart : List Instance → Type 0
Apart is =
    (k l : Str) (i j : Instance)
    → k ≢ l
    → instance_of k is ≡ some i
    → instance_of l is ≡ some j
    → clash i j ≡ false

abbrev pub fenced_decode : Instance → Option DecodeBalancer → Bool
fenced_decode i none = true
fenced_decode i (some b) = if is_decode i then closed_to i.endpoint b.nodes else true

abbrev pub fenced_prefill : Instance → Option Handoff → Bool
fenced_prefill i none = true
fenced_prefill i (some k) = if is_prefill i then k.disabled else true

-- Nothing is sent to the instance of a key.
abbrev pub IsFenced : Server → Str → Type 0
IsFenced s key =
    (i : Instance)
    → instance_of key s.instances ≡ some i
    → (fenced_decode i s.bal ≡ true) × (fenced_prefill i s.kp ≡ true)

pub fence_decode_self :
    (i : Instance) (bal : Option DecodeBalancer) → fenced_decode i (fence_decode true i bal) ≡ true
unfolding fence_decode
fence_decode_self i none = refl
fence_decode_self i (some b) = elim (Bool-cases (is_decode i)) [
  | inl d ↦ rw d (set_excluded-closes i.endpoint b)
  | inr o ↦ rw o refl
]

pub fence_decode-keeps :
    (i j : Instance) (bal : Option DecodeBalancer)
    → fenced_decode j bal ≡ true
    → fenced_decode j (fence_decode true i bal) ≡ true
unfolding fence_decode
fence_decode-keeps i j none h = refl
fence_decode-keeps i j (some b) h = elim (Bool-cases (is_decode i)) [
  | inr o ↦ rw o h
  | inl d ↦ elim (Bool-cases (is_decode j)) [
    | inr o ↦ rw o refl
    | inl e ↦ rw d (rw e (set_excluded-keeps j.endpoint i.endpoint b (rw e at h)))
  ]
]

clash-parts :
    (i j : Instance)
    → clash i j ≡ false
    → is_decode i ≡ true
    → is_decode j ≡ true
    → same (trim_slashes j.endpoint) (trim_slashes i.endpoint) ≡ false
clash-parts i j h d e = ground arith

pub fence_decode-Apart :
    (i j : Instance) (on : Bool) (bal : Option DecodeBalancer)
    → clash i j ≡ false
    → fenced_decode j (fence_decode on i bal) ≡ fenced_decode j bal
unfolding fence_decode
fence_decode-Apart i j on none h = refl
fence_decode-Apart i j on (some b) h = elim (Bool-cases (is_decode i)) [
  | inr o ↦ rw o refl
  | inl d ↦ elim (Bool-cases (is_decode j)) [
    | inr o ↦ rw o refl
    | inl e ↦ rw d (rw e (set_excluded-apart j.endpoint i.endpoint on b (clash-parts i j h d e)))
  ]
]

pub fence_prefill_self :
    (i : Instance) (kp : Option Handoff) → fenced_prefill i (fence_prefill true i kp) ≡ true
unfolding fence_prefill
fence_prefill_self i none = refl
fence_prefill_self i (some k) = ground arith

pub fence_prefill-keeps :
    (i j : Instance) (kp : Option Handoff)
    → fenced_prefill j kp ≡ true
    → fenced_prefill j (fence_prefill true i kp) ≡ true
unfolding fence_prefill
fence_prefill-keeps i j none h = refl
fence_prefill-keeps i j (some k) h = ground arith

pub fence_prefill-Apart :
    (i j : Instance) (on : Bool) (kp : Option Handoff)
    → clash i j ≡ false
    → fenced_prefill j (fence_prefill on i kp) ≡ fenced_prefill j kp
unfolding fence_prefill
fence_prefill-Apart i j on none h = refl
fence_prefill-Apart i j on (some k) h = ground arith
