-- ===== src/Ingest/Topology/Ends.antt =====
-- crates/core/src/ingest/map/topology.rs: the ends of an edge, with proofs for each kind of edge.
use aws_net_hound.Base.{
  ◌⊎◌, >>=-eq-ok, ◌≡◌, refl, subst, Option, none, some, List, String, All, All-map, zip, present,
  ok, inl, inr, concat,
}
use aws_net_hound.Base.Every.{
  All-concat, All-flat_map, All-map_intro, All-present, All-intro, some_unique,
}
use aws_net_hound.Base.Traverse.{traverse-All, traverse-All_of, map_ok-eq-ok, ok_unique}
use aws_net_hound.Domain.Rule.{Direction, SgRule, ingress, egress}
use aws_net_hound.Graph.Model.{
  EniRecord, SecurityGroupRecord, NetworkAclRecord, RouteTableRecord, Edge, has_sg, in_subnet,
  protected_by, uses_route_table, routes_to, allows_ingress, allows_egress, has_rule,
}
use aws_net_hound.Ingest.Sdk.{
  NetworkInterface, SecurityGroup, NetworkAcl, RouteTable, Route, VpcPeeringConnection,
}
use aws_net_hound.Ingest.Ports.{require_str}
use aws_net_hound.Ingest.Edges.{
  has_sg_edges, in_subnet_edges, protected_by_edges, uses_route_table_edges, routes_to_edges,
  allows_edges, has_rule_edges, protected_edge, uses_edge, subnet_ids, route_edge, edge_to, sides,
  allows_edge,
}
use aws_net_hound.Ingest.Edges.Routes.{In, IsRouted, IsOwned, resolve_route_target-IsRouted}
use aws_net_hound.Ingest.Sg.{map_security_group_rules}
use aws_net_hound.Ingest.Nacl.{map_network_acl_rules}

-- The ids of the nodes of each label.
pub record Ends : Type 0 where
  pub enis : List String
  pub security_groups : List String
  pub network_acls : List String
  pub subnets : List String
  pub vpcs : List String
  pub route_tables : List String

-- The ends of an edge are nodes; of a membership in a security group, the interface is, and of a rule
-- the group or network ACL that has it, whatever group it refers to.
abbrev pub IsClosed : Ends → Edge → Type 0
IsClosed ends (has_sg e) = In ends.enis e.eni_id
IsClosed ends (in_subnet e) = In ends.enis e.eni_id × In ends.subnets e.subnet_id
IsClosed ends (protected_by e) = In ends.subnets e.subnet_id × In ends.network_acls e.network_acl_id
IsClosed ends (uses_route_table e) =
    In ends.subnets e.subnet_id × In ends.route_tables e.route_table_id
IsClosed ends (routes_to e) =
    In ends.route_tables e.route_table_id × IsRouted ends.vpcs e.target_vpc_id e.resolved
IsClosed ends (allows_ingress id rule) = In ends.security_groups id
IsClosed ends (allows_egress id rule) = In ends.security_groups id
IsClosed ends (has_rule id rule) = In ends.network_acls id

Direction-cases : (d : Direction) → (d ≡ ingress) ⊎ (d ≡ egress)
Direction-cases ingress = inl refl
Direction-cases egress = inr refl

module _ (ends : Ends) where
  pub has_sg_edges-IsClosed :
      (enis : List NetworkInterface) (nodes : List EniRecord) {edges : List Edge}
      → All (λ (p : NetworkInterface × EniRecord). In ends.enis p.1.id) (zip enis nodes)
      → has_sg_edges enis nodes ≡ ok edges
      → All (IsClosed ends) edges
  unfolding has_sg_edges
  has_sg_edges-IsClosed enis nodes h e =
      let (nested, each, eq) = map_ok-eq-ok concat _ e in
      subst (All (IsClosed ends)) eq (
        All-concat (IsClosed ends) nested (
          traverse-All_of _ (All (IsClosed ends))
            (λ (eni, node) edges own walk.
              traverse-All _ (IsClosed ends)
                (λ group edge step.
                  let (id, _, last) =
                    >>=-eq-ok (require_str node.id "groups[].group_id" group) _ step in
                  subst (IsClosed ends) (ok_unique refl last) own)
                eni.group_ids walk)
            (zip enis nodes) h each))

  pub in_subnet_edges-IsClosed :
      (nodes : List EniRecord)
      → All (λ (node : EniRecord). In ends.enis node.id × In ends.subnets node.subnet_id) nodes
      → All (IsClosed ends) (in_subnet_edges nodes)
  unfolding in_subnet_edges
  in_subnet_edges-IsClosed nodes h = All-map_intro (IsClosed ends) _ nodes h

  pub protected_by_edges-IsClosed :
      (acls : List NetworkAcl) (nodes : List NetworkAclRecord)
      → All
          (λ (p : NetworkAcl × NetworkAclRecord).
            In ends.network_acls p.1.id
            × All (In ends.subnets) (present p.0.association_subnet_ids))
          (zip acls nodes)
      → All (IsClosed ends) (protected_by_edges acls nodes)
  unfolding protected_by_edges
  protected_by_edges-IsClosed acls nodes h = All-flat_map (IsClosed ends) _ (zip acls nodes) (
      All-map _
        (λ (acl, node) (own, subnets).
          All-map_intro (IsClosed ends) (protected_edge node) (present acl.association_subnet_ids)
            (All-map _ (λ id h. (h, own)) _ subnets))
        (zip acls nodes) h)

  pub uses_route_table_edges-IsClosed :
      (tables : List RouteTable) (nodes : List RouteTableRecord)
      → All
          (λ (p : RouteTable × RouteTableRecord).
            In ends.route_tables p.1.id × All (In ends.subnets) (subnet_ids p.0))
          (zip tables nodes)
      → All (IsClosed ends) (uses_route_table_edges tables nodes)
  unfolding uses_route_table_edges
  uses_route_table_edges-IsClosed tables nodes h =
      All-flat_map (IsClosed ends) _ (zip tables nodes) (
        All-map _
          (λ (table, node) (own, subnets).
            All-map_intro (IsClosed ends) (uses_edge node) (subnet_ids table)
              (All-map _ (λ id h. (h, own)) _ subnets))
          (zip tables nodes) h)

  allows_edge-IsClosed :
      (id : String) (rule : SgRule)
      → In ends.security_groups id
      → IsClosed ends (allows_edge id rule)
  allows_edge-IsClosed id rule own = elim (Direction-cases rule.direction) [
    | inl e ↦ rw e own
    | inr e ↦ rw e own
  ]

  pub allows_edges-IsClosed :
      (account : String) (groups : List SecurityGroup) (nodes : List SecurityGroupRecord)
      {edges : List Edge}
      → All
          (λ (p : SecurityGroup × SecurityGroupRecord). In ends.security_groups p.1.id)
          (zip groups nodes)
      → allows_edges groups nodes account ≡ ok edges
      → All (IsClosed ends) edges
  unfolding allows_edges
  allows_edges-IsClosed account groups nodes h e =
      let (nested, each, eq) = map_ok-eq-ok concat _ e in
      subst (All (IsClosed ends)) eq (
        All-concat (IsClosed ends) nested (
          traverse-All_of _ (All (IsClosed ends))
            (λ (group, node) edges own step.
              let (rules, _, eq) = map_ok-eq-ok _ (map_security_group_rules group account) step in
              subst (All (IsClosed ends)) eq (
                All-map_intro (IsClosed ends) (allows_edge node.id) rules
                  (All-intro _ (λ rule. allows_edge-IsClosed node.id rule own) rules)))
            (zip groups nodes) h each))

  pub has_rule_edges-IsClosed :
      (acls : List NetworkAcl) (nodes : List NetworkAclRecord) {edges : List Edge}
      → All (λ (p : NetworkAcl × NetworkAclRecord). In ends.network_acls p.1.id) (zip acls nodes)
      → has_rule_edges acls nodes ≡ ok edges
      → All (IsClosed ends) edges
  unfolding has_rule_edges
  has_rule_edges-IsClosed acls nodes h e =
      let (nested, each, eq) = map_ok-eq-ok concat _ e in
      subst (All (IsClosed ends)) eq (
        All-concat (IsClosed ends) nested (
          traverse-All_of _ (All (IsClosed ends))
            (λ (acl, node) edges own step.
              let (rules, _, eq) = map_ok-eq-ok _ (map_network_acl_rules acl) step in
              subst (All (IsClosed ends)) eq (
                All-map_intro (IsClosed ends) (has_rule node.id) rules
                  (All-intro _ (λ rule. own) rules)))
            (zip acls nodes) h each))

  edge_to-IsClosed :
      (account : String) (node : RouteTableRecord) (peerings : List VpcPeeringConnection)
      (route : Route) (block : Option String) (edge : Edge)
      → In ends.route_tables node.id
      → In ends.vpcs node.vpc_id
      → All (λ peering. All (IsOwned account ends.vpcs) (sides peering)) peerings
      → edge_to account node peerings route block ≡ some edge
      → IsClosed ends edge
  edge_to-IsClosed account node peerings route none edge table vpc owned e = absurd cc
  edge_to-IsClosed account node peerings route (some block) edge table vpc owned e =
      subst (IsClosed ends) (some_unique refl e) (
        table,
        resolve_route_target-IsRouted account ends.vpcs node.vpc_id route peerings vpc owned,
      )

  pub routes_to_edges-IsClosed :
      (account : String) (tables : List RouteTable) (nodes : List RouteTableRecord)
      (peerings : List VpcPeeringConnection)
      → All (λ peering. All (IsOwned account ends.vpcs) (sides peering)) peerings
      → All
          (λ (p : RouteTable × RouteTableRecord).
            In ends.route_tables p.1.id × In ends.vpcs p.1.vpc_id)
          (zip tables nodes)
      → All (IsClosed ends) (routes_to_edges account tables nodes peerings)
  unfolding routes_to_edges
  routes_to_edges-IsClosed account tables nodes peerings owned h =
      All-flat_map (IsClosed ends) _ (zip tables nodes) (
        All-map _
          (λ (table, node) (own, vpc). All-present (IsClosed ends) _ (
            All-map_intro _ (route_edge account node peerings) table.routes (
              All-intro _
                (λ route edge e.
                  edge_to-IsClosed account node peerings route _ edge own vpc owned e)
                table.routes)))
          (zip tables nodes) h)
