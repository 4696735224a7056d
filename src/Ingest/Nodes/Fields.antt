-- ===== src/Ingest/Nodes/Fields.antt =====
-- crates/core/src/ingest/map/topology.rs: proofs about the fields of the nodes.
use aws_net_hound.Base.{◌≡◌, refl, ap, ◌∙◌, Option, none, some, String, ok, ok_or, >>=-eq-ok}
use aws_net_hound.Base.Traverse.{ok_unique}
use aws_net_hound.Graph.Model.{EniRecord, NetworkAclRecord, RouteTableRecord}
use aws_net_hound.Ingest.Sdk.{NetworkInterface, NetworkAcl, RouteTable}
use aws_net_hound.Ingest.Ports.{require_str, invalid_field, absent}
use aws_net_hound.Ingest.Nodes.{map_eni_node, map_network_acl_node, map_route_table_node}

require_str-eq-ok :
    (id field : String) (value : Option String) {text : String}
    → require_str id field value ≡ ok text
    → value ≡ some text
unfolding require_str
require_str-eq-ok id field none h = absurd cc
require_str-eq-ok id field (some text) h = ap some (ok_unique refl h)

pub map_eni_node-fields :
    (eni : NetworkInterface) (account : String) {node : EniRecord}
    → map_eni_node eni account ≡ ok node
    → (eni.subnet_id ≡ some node.subnet_id) × (eni.vpc_id ≡ some node.vpc_id)
unfolding map_eni_node
map_eni_node-fields eni account h =
    let (id, _, h) =
      >>=-eq-ok (require_str "<unknown ENI>" "network_interface_id" eni.network_interface_id) _ h in
    let (vpc, hv, h) = >>=-eq-ok (require_str id "vpc_id" eni.vpc_id) _ h in
    let (subnet, hs, h) = >>=-eq-ok (require_str id "subnet_id" eni.subnet_id) _ h in
    let (ip, _, last) =
      >>=-eq-ok (require_str id "private_ip_address" eni.private_ip_address) _ h in
    let same = ok_unique refl last in
    (
      require_str-eq-ok id "subnet_id" eni.subnet_id hs
          ∙ ap (λ (r : EniRecord). some r.subnet_id) same,
      require_str-eq-ok id "vpc_id" eni.vpc_id hv ∙ ap (λ (r : EniRecord). some r.vpc_id) same,
    )

pub map_network_acl_node-fields :
    (acl : NetworkAcl) (account : String) {node : NetworkAclRecord}
    → map_network_acl_node acl account ≡ ok node
    → acl.vpc_id ≡ some node.vpc_id
unfolding map_network_acl_node
map_network_acl_node-fields acl account h =
    let (id, _, h) =
      >>=-eq-ok (require_str "<unknown network acl>" "network_acl_id" acl.network_acl_id) _ h in
    let (vpc, hv, h) = >>=-eq-ok (require_str id "vpc_id" acl.vpc_id) _ h in
    let (_, _, last) =
      >>=-eq-ok (ok_or (invalid_field id "is_default" absent) acl.is_default) _ h in
    require_str-eq-ok id "vpc_id" acl.vpc_id hv
    ∙ ap (λ (r : NetworkAclRecord). some r.vpc_id) (ok_unique refl last)

pub map_route_table_node-fields :
    (table : RouteTable) (account : String) {node : RouteTableRecord}
    → map_route_table_node table account ≡ ok node
    → table.vpc_id ≡ some node.vpc_id
unfolding map_route_table_node
map_route_table_node-fields table account h =
    let (id, _, h) =
      >>=-eq-ok (require_str "<unknown route table>" "route_table_id" table.route_table_id) _ h in
    let (vpc, hv, last) = >>=-eq-ok (require_str id "vpc_id" table.vpc_id) _ h in
    require_str-eq-ok id "vpc_id" table.vpc_id hv
    ∙ ap (λ (r : RouteTableRecord). some r.vpc_id) (ok_unique refl last)
