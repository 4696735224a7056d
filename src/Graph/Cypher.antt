-- ===== src/Graph/Cypher.antt =====
-- crates/core/src/graph/neo4j.rs: the Cypher statements of the writer, as texts.
use Prim.Native.String.{◌++◌ as append}
use aws_net_hound.Base.{String}

unfoldable pub node_upsert_query : String → String
node_upsert_query label =
    append "UNWIND $rows AS row\nMERGE (n:" (append label " {id: row.id})\nSET n += row.props")

abbrev pub has_sg_upsert : String
has_sg_upsert =
    "UNWIND $rows AS row\nMATCH (a:ENI {id: row.eni_id}), (b:SecurityGroup {id: row.security_group_id})\nMERGE (a)-[r:HAS_SG]->(b)\nRETURN count(r) AS merged"

abbrev pub in_subnet_upsert : String
in_subnet_upsert =
    "UNWIND $rows AS row\nMATCH (a:ENI {id: row.eni_id}), (b:Subnet {id: row.subnet_id})\nMERGE (a)-[r:IN_SUBNET]->(b)\nRETURN count(r) AS merged"

abbrev pub protected_by_upsert : String
protected_by_upsert =
    "UNWIND $rows AS row\nMATCH (a:Subnet {id: row.subnet_id}), (b:NetworkACL {id: row.network_acl_id})\nMERGE (a)-[r:PROTECTED_BY]->(b)\nRETURN count(r) AS merged"

abbrev pub uses_route_table_upsert : String
uses_route_table_upsert =
    "UNWIND $rows AS row\nMATCH (a:Subnet {id: row.subnet_id}), (b:RouteTable {id: row.route_table_id})\nMERGE (a)-[r:USES_ROUTE_TABLE]->(b)\nRETURN count(r) AS merged"

abbrev pub routes_to_resolved_upsert : String
routes_to_resolved_upsert =
    "UNWIND $rows AS row\nMATCH (a:RouteTable {id: row.route_table_id}), (b:VPC {id: row.target_vpc_id})\nMERGE (a)-[r:ROUTES_TO {destination_cidr: row.destination_cidr}]->(b)\nSET r.resolved = row.resolved\nRETURN count(r) AS merged"

abbrev pub routes_to_unresolved_upsert : String
routes_to_unresolved_upsert =
    "UNWIND $rows AS row\nMATCH (a:RouteTable {id: row.route_table_id})\nMERGE (a)-[r:ROUTES_TO {destination_cidr: row.destination_cidr}]->(a)\nSET r.resolved = row.resolved\nRETURN count(r) AS merged"

abbrev pub allows_egress_cidr_upsert : String
allows_egress_cidr_upsert =
    "UNWIND $rows AS row\nMATCH (a:SecurityGroup {id: row.security_group_id})\nMERGE (a)-[r:ALLOWS_EGRESS {\n    protocol: row.protocol,\n    from_port: row.from_port,\n    to_port: row.to_port,\n    target_kind: row.target_kind,\n    cidr: row.cidr\n}]->(a)\nSET r.resolved = row.resolved\nRETURN count(r) AS merged"

abbrev pub allows_egress_sg_ref_resolved_upsert : String
allows_egress_sg_ref_resolved_upsert =
    "UNWIND $rows AS row\nMATCH (a:SecurityGroup {id: row.security_group_id})\nMATCH (b:SecurityGroup {id: row.target_security_group_id})\nMERGE (a)-[r:ALLOWS_EGRESS {\n    protocol: row.protocol,\n    from_port: row.from_port,\n    to_port: row.to_port,\n    target_kind: row.target_kind,\n    target_security_group_id: row.target_security_group_id\n}]->(b)\nSET r.resolved = row.resolved\nRETURN count(r) AS merged"

abbrev pub allows_egress_sg_ref_unresolved_upsert : String
allows_egress_sg_ref_unresolved_upsert =
    "UNWIND $rows AS row\nMATCH (a:SecurityGroup {id: row.security_group_id})\nMERGE (a)-[r:ALLOWS_EGRESS {\n    protocol: row.protocol,\n    from_port: row.from_port,\n    to_port: row.to_port,\n    target_kind: row.target_kind,\n    target_security_group_id: row.target_security_group_id\n}]->(a)\nSET r.resolved = row.resolved\nRETURN count(r) AS merged"

abbrev pub allows_ingress_cidr_upsert : String
allows_ingress_cidr_upsert =
    "UNWIND $rows AS row\nMATCH (a:SecurityGroup {id: row.security_group_id})\nMERGE (a)-[r:ALLOWS_INGRESS {\n    protocol: row.protocol,\n    from_port: row.from_port,\n    to_port: row.to_port,\n    target_kind: row.target_kind,\n    cidr: row.cidr\n}]->(a)\nSET r.resolved = row.resolved\nRETURN count(r) AS merged"

abbrev pub allows_ingress_sg_ref_resolved_upsert : String
allows_ingress_sg_ref_resolved_upsert =
    "UNWIND $rows AS row\nMATCH (a:SecurityGroup {id: row.security_group_id})\nMATCH (b:SecurityGroup {id: row.target_security_group_id})\nMERGE (a)-[r:ALLOWS_INGRESS {\n    protocol: row.protocol,\n    from_port: row.from_port,\n    to_port: row.to_port,\n    target_kind: row.target_kind,\n    target_security_group_id: row.target_security_group_id\n}]->(b)\nSET r.resolved = row.resolved\nRETURN count(r) AS merged"

abbrev pub allows_ingress_sg_ref_unresolved_upsert : String
allows_ingress_sg_ref_unresolved_upsert =
    "UNWIND $rows AS row\nMATCH (a:SecurityGroup {id: row.security_group_id})\nMERGE (a)-[r:ALLOWS_INGRESS {\n    protocol: row.protocol,\n    from_port: row.from_port,\n    to_port: row.to_port,\n    target_kind: row.target_kind,\n    target_security_group_id: row.target_security_group_id\n}]->(a)\nSET r.resolved = row.resolved\nRETURN count(r) AS merged"

abbrev pub has_rule_upsert : String
has_rule_upsert =
    "UNWIND $rows AS row\nMATCH (a:NetworkACL {id: row.network_acl_id})\nMERGE (a)-[r:HAS_RULE {rule_number: row.rule_number}]->(a)\nSET r.direction = row.direction,\n    r.protocol = row.protocol,\n    r.from_port = row.from_port,\n    r.to_port = row.to_port,\n    r.cidr = row.cidr,\n    r.action = row.action\nRETURN count(r) AS merged"
