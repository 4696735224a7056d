-- ===== src/Examples/Ingesting.antt =====
-- The ingest theorems at concrete inputs.
use aws_net_hound.Base.{
  ◌≡◌, refl, ℕ, some, List, [], ◌∷◌, ◌++◌, String, All, length, ok, err, map, present,
}
use aws_net_hound.Base.Int.{pos, negsuc}
use aws_net_hound.Base.Ordered.{group}
use aws_net_hound.Base.Sort.{sort_by_key, IsSortedBy}
use aws_net_hound.Domain.Rule.{
  SgRule, NaclRule, new_port_range, ingress, egress, inverted_port_range,
}
use aws_net_hound.Domain.Valid.{IsNaclRule}
use aws_net_hound.Evaluate.Match.{port_matches}
use aws_net_hound.Evaluate.Candidates.Rows.{sg_rule_from_props, nacl_rule_from_props}
use aws_net_hound.Evaluate.Candidates.RoundTrip.{sg_rule_row}
use aws_net_hound.Graph.Model.{GraphBatch}
use aws_net_hound.Graph.Rows.{nacl_rule_row}
use aws_net_hound.Graph.Grouping.{group_rule_edges}
use aws_net_hound.Ingest.Ports.{
  build_port_range, normalised, require_str, invalid_field, rule_error,
}
use aws_net_hound.Ingest.Ports.Scope.{in_scope, port_matches-build_port_range}
use aws_net_hound.Ingest.Sg.{
  map_permission, map_permissions, map_security_group_rules, cidr_rules, pair_rules,
}
use aws_net_hound.Ingest.Sg.Rules.{
  IsMapped, map_security_group_rules_lem, map_security_group_rules-read_back,
}
use aws_net_hound.Ingest.Nacl.{map_entry, map_network_acl_rules}
use aws_net_hound.Ingest.Nacl.Rules.{map_network_acl_rules_lem, map_network_acl_rules-read_back}
use aws_net_hound.Ingest.Nodes.{
  map_nodes, map_eni_node, map_security_group_node, map_network_acl_node, map_route_table_node,
}
use aws_net_hound.Ingest.Nodes.Kept.{IsKept, map_nodes_lem}
use aws_net_hound.Ingest.Edges.{has_sg_edges, allows_edges, has_rule_edges}
use aws_net_hound.Ingest.Topology.{build_graph_batch, collect_edges}
use aws_net_hound.Ingest.Topology.Ends.{IsClosed}
use aws_net_hound.Ingest.Topology.Closed.{ends_of, build_graph_batch-IsClosed}
use aws_net_hound.Ingest.Pipeline.{group_by, as_egress, as_ingress, as_nacl}
use aws_net_hound.Ingest.Pipeline.Groups.{group-group_by}
use aws_net_hound.Ingest.Pipeline.Agreement.{group_rule_edges-agrees}
use aws_net_hound.Examples.Resources.{
  permission, security_group, group_rules, network_acl, acl_rules, network_interface,
  broken_interface, account, batch_of,
}

-- Echo request, any code 0: the type is above the code, and the mapping fails.
icmp_type_above_code :
    build_port_range "sg-1" "port_range" "icmp" (some (pos 8)) (some (pos 0))
    ≡ err (invalid_field "sg-1" "port_range" (rule_error (inverted_port_range 8 0)))
unfolding build_port_range normalised new_port_range
icmp_type_above_code = refl

any_code :
    build_port_range "sg-1" "port_range" "icmp" (some (pos 8)) (some (negsuc 0))
    ≡ ok (some (record { from_port = 8; to_port = 8 }))
unfolding build_port_range normalised new_port_range
any_code = refl

port_matches-build_port_range_example :
    port_matches (some (record { from_port = 8; to_port = 8 })) (some 9)
    ≡ in_scope "icmp" (some (pos 8)) (some (negsuc 0)) 9
port_matches-build_port_range_example =
    port_matches-build_port_range "sg-1" "port_range" "icmp" (some (pos 8)) (some (negsuc 0)) _
      any_code 9

mapped_permission : map_permission "sg-1" permission ingress "111" ≡ ok group_rules
unfolding map_permission cidr_rules pair_rules require_str build_port_range normalised
    new_port_range
mapped_permission = refl

mapped_group : map_security_group_rules security_group "111" ≡ ok group_rules
unfolding map_security_group_rules map_permissions map_permission cidr_rules pair_rules require_str
    build_port_range normalised new_port_range
mapped_group = refl

map_security_group_rules_lem_example :
    (ingress_rules : List SgRule) × (egress_rules : List SgRule) × (group_rules
      ≡ ingress_rules ++ egress_rules)
    × All (IsMapped ingress) ingress_rules
    × All (IsMapped egress) egress_rules
map_security_group_rules_lem_example =
    map_security_group_rules_lem security_group "111" group_rules mapped_group

map_security_group_rules-read_back_example :
    All
      (λ (rule : SgRule).
        sg_rule_from_props (sg_rule_row "sg-1" rule rule.target) rule.direction ≡ ok rule)
      group_rules
map_security_group_rules-read_back_example =
    map_security_group_rules-read_back security_group "111" "sg-1" group_rules mapped_group

mapped_acl : map_network_acl_rules network_acl ≡ ok acl_rules
unfolding map_network_acl_rules map_entry require_str build_port_range sort_by_key
mapped_acl = refl

map_network_acl_rules_lem_example :
    IsSortedBy (λ (rule : NaclRule). rule.rule_number) acl_rules
    × All IsNaclRule acl_rules
    × (length acl_rules ≡ length network_acl.entries)
map_network_acl_rules_lem_example = map_network_acl_rules_lem network_acl acl_rules mapped_acl

map_network_acl_rules-read_back_example :
    All (λ (rule : NaclRule). nacl_rule_from_props (nacl_rule_row "acl-1" rule) ≡ ok rule) acl_rules
map_network_acl_rules-read_back_example =
    map_network_acl_rules-read_back network_acl "acl-1" acl_rules mapped_acl

map_nodes_lem_example :
    IsKept map_eni_node "111"
      (broken_interface ∷ network_interface ∷ [])
      []
      (map_nodes (broken_interface ∷ network_interface ∷ []) map_eni_node "111" [])
map_nodes_lem_example =
    map_nodes_lem map_eni_node "111" (broken_interface ∷ network_interface ∷ []) []

abbrev pub batch : GraphBatch
batch = batch_of (build_graph_batch "111" account []).batch

pub built : (build_graph_batch "111" account []).batch ≡ ok batch
unfolding build_graph_batch collect_edges map_nodes map_eni_node map_security_group_node
    map_network_acl_node map_route_table_node has_sg_edges allows_edges has_rule_edges
    map_security_group_rules map_permissions map_permission cidr_rules pair_rules
    map_network_acl_rules map_entry require_str build_port_range normalised new_port_range
built = refl

build_graph_batch-IsClosed_example : All (IsClosed (ends_of batch)) batch.edges
build_graph_batch-IsClosed_example = build_graph_batch-IsClosed "111" account [] batch built

abbrev pairs : List (String × ℕ)
pairs = ("b", 1) ∷ ("a", 2) ∷ ("b", 3) ∷ []

group-group_by_example : group "b" (group_by pairs) ≡ 1 ∷ 3 ∷ []
group-group_by_example = group-group_by "b" pairs

group_rule_edges-agrees_example : group_rule_edges batch.edges ≡ record {
  egress = group_by (present (map as_egress batch.edges));
  ingress = group_by (present (map as_ingress batch.edges));
  nacl = group_by (present (map as_nacl batch.edges));
}
group_rule_edges-agrees_example = group_rule_edges-agrees batch.edges
