-- ===== src/Coordinator/Balancer/Fence.antt =====
-- internal/coordinator/balancer.go: `setExcluded` and the choices after it.
use sofmat.Base.{ℕ, zero, suc, ◌≡◌, ◌≢◌, refl, Bool, true, false, List, [], ◌∷◌, some, ok}
use sofmat.Base.Strings.{Str}
use sofmat.Coordinator.Balancer.{DecodeNode, DecodeBalancer, node_at, update_at, choose_node}
use sofmat.Coordinator.Balancer.Admin.{fence, node_by_url, set_excluded}
use sofmat.Coordinator.Balancer.Choice.{choose_node-is_open, is_open}

pub fenced-is_open :
    (i : ℕ) (ns : List DecodeNode) → is_open (update_at i (fence true) ns) i ≡ false
unfolding node_at update_at
fenced-is_open i [] = refl
fenced-is_open zero (n ∷ ns) = refl
fenced-is_open (suc i) (n ∷ ns) = fenced-is_open i ns

pub set_excluded-some :
    (url : Str) (on : Bool) (b : DecodeBalancer) (i : ℕ)
    → node_by_url url b ≡ some i
    → (set_excluded url on b).1.nodes ≡ update_at i (fence on) b.nodes
unfolding set_excluded
set_excluded-some url on b i h = rw (h, set_excluded) refl

-- Once the engine of a URL is fenced, no conversation is sent to it, pinned there or not.
pub choose_node-set_excluded :
    (url key : Str) (b b' : DecodeBalancer) (i j : ℕ)
    → node_by_url url b ≡ some i
    → choose_node key (set_excluded url true b).1 ≡ ok (some j, b')
    → j ≢ i
choose_node-set_excluded url key b b' i j at_url chosen same_index =
    let (kept, o) = choose_node-is_open key (set_excluded url true b).1 b' j chosen in
    cc
      (fenced-is_open i b.nodes, rw (set_excluded-some url true b i at_url) at (rw same_index at o))
