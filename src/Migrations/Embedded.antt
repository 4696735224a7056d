-- ===== src/Migrations/Embedded.antt =====
-- crates/core/src/migrations.rs: `MIGRATION_FILES`, with the files of migrations/ as they are embedded.
use aws_net_hound.Base.{List, [], ◌∷◌, String}

abbrev pub constraints : String
constraints =
    "// Migration: 0001_constraints\n// Purpose: uniqueness constraints on the AWS ID (or operator-assigned key,\n// for RegulatedBoundary) of every node type documented in\n// crates/core/docs/schema.md.\n//\n// Statement delimiter contract (relied on by the M0-T4 runner): each\n// statement is terminated by a semicolon `;`. Blank lines and comment lines\n// (`//`) are not delimiters and may appear freely between or inside\n// statements. The runner splits this file on `;` and executes each\n// resulting non-empty, non-comment-only chunk as one statement.\n//\n// Naming convention: `<node_type_snake_case>_id_unique`.\n\nCREATE CONSTRAINT eni_id_unique IF NOT EXISTS\nFOR (n:ENI) REQUIRE n.id IS UNIQUE;\n\nCREATE CONSTRAINT security_group_id_unique IF NOT EXISTS\nFOR (n:SecurityGroup) REQUIRE n.id IS UNIQUE;\n\nCREATE CONSTRAINT network_acl_id_unique IF NOT EXISTS\nFOR (n:NetworkACL) REQUIRE n.id IS UNIQUE;\n\nCREATE CONSTRAINT subnet_id_unique IF NOT EXISTS\nFOR (n:Subnet) REQUIRE n.id IS UNIQUE;\n\nCREATE CONSTRAINT vpc_id_unique IF NOT EXISTS\nFOR (n:VPC) REQUIRE n.id IS UNIQUE;\n\nCREATE CONSTRAINT route_table_id_unique IF NOT EXISTS\nFOR (n:RouteTable) REQUIRE n.id IS UNIQUE;\n\nCREATE CONSTRAINT regulated_boundary_id_unique IF NOT EXISTS\nFOR (n:RegulatedBoundary) REQUIRE n.id IS UNIQUE;\n"

abbrev pub indexes : String
indexes =
    "// Migration: 0002_indexes\n// Purpose: indexes on fields reachability queries filter by. See\n// crates/core/docs/schema.md cross-cutting notes.\n//\n// Statement delimiter contract: same as 0001_constraints.cypher — split on\n// `;`, comments and blank lines ignored.\n//\n// Naming convention: `<node_type_snake_case>_<field>_idx` for node property\n// indexes, `<edge_type_snake_case>_<field>_idx` for relationship property\n// indexes.\n\n// account_id — carried on every node type.\nCREATE INDEX eni_account_id_idx IF NOT EXISTS\nFOR (n:ENI) ON (n.account_id);\n\nCREATE INDEX security_group_account_id_idx IF NOT EXISTS\nFOR (n:SecurityGroup) ON (n.account_id);\n\nCREATE INDEX network_acl_account_id_idx IF NOT EXISTS\nFOR (n:NetworkACL) ON (n.account_id);\n\nCREATE INDEX subnet_account_id_idx IF NOT EXISTS\nFOR (n:Subnet) ON (n.account_id);\n\nCREATE INDEX vpc_account_id_idx IF NOT EXISTS\nFOR (n:VPC) ON (n.account_id);\n\nCREATE INDEX route_table_account_id_idx IF NOT EXISTS\nFOR (n:RouteTable) ON (n.account_id);\n\nCREATE INDEX regulated_boundary_account_id_idx IF NOT EXISTS\nFOR (n:RegulatedBoundary) ON (n.account_id);\n\n// vpc_id — carried on every node type except RegulatedBoundary and VPC\n// itself (VPC's own key is the vpc id).\nCREATE INDEX eni_vpc_id_idx IF NOT EXISTS\nFOR (n:ENI) ON (n.vpc_id);\n\nCREATE INDEX security_group_vpc_id_idx IF NOT EXISTS\nFOR (n:SecurityGroup) ON (n.vpc_id);\n\nCREATE INDEX network_acl_vpc_id_idx IF NOT EXISTS\nFOR (n:NetworkACL) ON (n.vpc_id);\n\nCREATE INDEX subnet_vpc_id_idx IF NOT EXISTS\nFOR (n:Subnet) ON (n.vpc_id);\n\nCREATE INDEX route_table_vpc_id_idx IF NOT EXISTS\nFOR (n:RouteTable) ON (n.vpc_id);\n\n// resolved — on the evaluable-rule edges, so unresolved references can be\n// listed cheaply.\nCREATE INDEX allows_egress_resolved_idx IF NOT EXISTS\nFOR ()-[r:ALLOWS_EGRESS]-() ON (r.resolved);\n\nCREATE INDEX allows_ingress_resolved_idx IF NOT EXISTS\nFOR ()-[r:ALLOWS_INGRESS]-() ON (r.resolved);\n"

abbrev pub migration_files : List (String × String)
migration_files = ("0001_constraints.cypher", constraints) ∷ ("0002_indexes.cypher", indexes) ∷ []
