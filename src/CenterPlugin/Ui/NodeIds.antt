-- ===== src/CenterPlugin/Ui/NodeIds.antt =====
-- The nodes of an accepted list.
use relayward_sdk.Base.{
  ℕ, ◌+◌, ◌≡◌, refl, ap, List, [], ◌∷◌, Option, some, none, Bytes, arith, map, All, pass,
}
use relayward_sdk.Protocol.Distinct.{NoRepeats, Fresh, Fresh-cons}
use relayward_sdk.CenterPlugin.Text.{validate_opaque_id}
use relayward_sdk.CenterPlugin.Ui.{
  Node, ListNodesResponse, check_nodes, validate_list_nodes_response,
}

abbrev pub node_ids : List Node → List Bytes
node_ids nodes = map (λ node. node.id) nodes

-- All nodes are there, each ID is one that `validateOpaqueID` accepts, and none occurs twice.
pub record Listed (seen : List Bytes) (values : List (Option Node)) : Type 0 where
  pub nodes : List Node
  pub present : values ≡ map some nodes
  pub valid : All (λ node. validate_opaque_id node.id ≡ pass) nodes
  pub distinct : NoRepeats (node_ids nodes)
  pub fresh : Fresh seen (node_ids nodes)

check_nodes-Listed :
    (index : ℕ) (seen : List Bytes) (values : List (Option Node))
    → check_nodes index seen values ≡ pass
    → Listed seen values
unfolding check_nodes
check_nodes-Listed index seen [] h = record {
  nodes = [];
  present = refl;
  valid = tt;
  distinct = tt;
  fresh = tt;
}
check_nodes-Listed index seen (none ∷ rest) h = absurd (ground arith)
check_nodes-Listed index seen (some node ∷ rest) h =
    let listed = check_nodes-Listed (index + 1) (node.id ∷ seen) rest (ground arith) in
    let (x, g) = Fresh-cons node.id seen (node_ids listed.nodes) listed.fresh in
    record {
      nodes = node ∷ listed.nodes;
      present = ap (◌∷◌ (some node)) listed.present;
      valid = (ground arith, listed.valid);
      distinct = (x, listed.distinct);
      fresh = (ground arith, g);
    }

-- In an accepted list of nodes every node is there and has a valid ID, and no ID occurs twice.
pub accepted_nodes :
    (response : ListNodesResponse)
    → validate_list_nodes_response (some response) ≡ pass
    → Listed [] response.nodes
unfolding validate_list_nodes_response
accepted_nodes response h = check_nodes-Listed 0 [] response.nodes h
