-- ===== src/Ingest/Collect.antt =====
-- crates/core/src/ingest/collect.rs and the `try_join!` of crates/core/src/ingest/pipeline.rs. The
-- pages that the SDK's paginators give are parameters; logging is left out.
pub mod Pages
use aws_net_hound.Base.{
  ℕ, zero, suc, Option, none, some, List, [], ◌∷◌, ◌++◌, String, Result, ok, err,
}
use aws_net_hound.Base.Streams.{Stream, closed, broken, item}
use aws_net_hound.Ingest.Errors.{IngestError, describe}
use aws_net_hound.Ingest.Sdk.{
  SecurityGroup, NetworkAcl, RouteTable, NetworkInterface, VpcPeeringConnection,
}
use aws_net_hound.Ingest.Topology.{Collected}

-- An answer of a `Describe*` call, of which only the list is read.
abbrev pub Pages : Type 0 → Type 0 → Type 0
Pages Failure Item = Stream Failure (Option (List Item))

-- What the five paginators of a client give.
pub record Client (Failure : Type 0) : Type 0 where
  pub describe_security_groups : Pages Failure SecurityGroup
  pub describe_network_acls : Pages Failure NetworkAcl
  pub describe_route_tables : Pages Failure RouteTable
  pub describe_network_interfaces : Pages Failure NetworkInterface
  pub describe_vpc_peering_connections : Pages Failure VpcPeeringConnection

-- `unwrap_or_default` on a list.
abbrev pub or_empty : {A : Type 0} → Option (List A) → List A
or_empty none = []
or_empty (some xs) = xs

module _ {Failure WriteError : Type 0} where
  -- The loop of `drain_pages`, with the items that it has.
  unfoldable pub drain_from :
      {Output Item : Type 0}
      → String
      → (Output → List Item)
      → List Item
      → Stream Failure Output
      → Result (IngestError Failure WriteError) (List Item)
  drain_from operation extract_items items closed = ok items
  drain_from operation extract_items items (broken failure) = err (describe operation failure)
  drain_from operation extract_items items (item output rest) =
      drain_from operation extract_items (items ++ extract_items output) rest

  unfoldable pub drain_pages :
      {Output Item : Type 0}
      → String
      → Stream Failure Output
      → (Output → List Item)
      → Result (IngestError Failure WriteError) (List Item)
  drain_pages operation pages extract_items = drain_from operation extract_items [] pages

  abbrev pub collect_security_groups :
      Client Failure → Result (IngestError Failure WriteError) (List SecurityGroup)
  collect_security_groups client =
      drain_pages "DescribeSecurityGroups" client.describe_security_groups or_empty

  abbrev pub collect_network_acls :
      Client Failure → Result (IngestError Failure WriteError) (List NetworkAcl)
  collect_network_acls client =
      drain_pages "DescribeNetworkAcls" client.describe_network_acls or_empty

  abbrev pub collect_route_tables :
      Client Failure → Result (IngestError Failure WriteError) (List RouteTable)
  collect_route_tables client =
      drain_pages "DescribeRouteTables" client.describe_route_tables or_empty

  abbrev pub collect_network_interfaces :
      Client Failure → Result (IngestError Failure WriteError) (List NetworkInterface)
  collect_network_interfaces client =
      drain_pages "DescribeNetworkInterfaces" client.describe_network_interfaces or_empty

  abbrev pub collect_vpc_peering_connections :
      Client Failure → Result (IngestError Failure WriteError) (List VpcPeeringConnection)
  collect_vpc_peering_connections client =
      drain_pages "DescribeVpcPeeringConnections" client.describe_vpc_peering_connections or_empty

  abbrev pub error_of :
      {A : Type 0}
      → Result (IngestError Failure WriteError) A
      → List (IngestError Failure WriteError)
  error_of (ok a) = []
  error_of (err e) = e ∷ []

  -- `try_join!`: the five run side by side, and the error that comes first in time is the answer.
  -- Which of them that is depends on the network: `earliest` is its place among the errors.
  abbrev pub first_error :
      ℕ
      → IngestError Failure WriteError
      → List (IngestError Failure WriteError)
      → IngestError Failure WriteError
  first_error zero e es = e
  first_error (suc n) e [] = e
  first_error (suc n) e (f ∷ fs) = first_error n f fs

  abbrev pub joined :
      ℕ
      → List (IngestError Failure WriteError)
      → Collected
      → Result (IngestError Failure WriteError) Collected
  joined earliest [] raw = ok raw
  joined earliest (e ∷ es) raw = err (first_error earliest e es)

  abbrev pub value_of : {A : Type 0} → Result (IngestError Failure WriteError) (List A) → List A
  value_of (ok xs) = xs
  value_of (err e) = []

  -- The five answers together.
  abbrev pub join_five :
      ℕ
      → Result (IngestError Failure WriteError) (List SecurityGroup)
      → Result (IngestError Failure WriteError) (List NetworkAcl)
      → Result (IngestError Failure WriteError) (List RouteTable)
      → Result (IngestError Failure WriteError) (List NetworkInterface)
      → Result (IngestError Failure WriteError) (List VpcPeeringConnection)
      → Result (IngestError Failure WriteError) Collected
  join_five earliest groups acls tables enis peerings =
      joined earliest
        (error_of groups
          ++ (error_of acls ++ (error_of tables ++ (error_of enis ++ error_of peerings))))
        (record {
          security_groups = value_of groups;
          network_acls = value_of acls;
          route_tables = value_of tables;
          network_interfaces = value_of enis;
          vpc_peering_connections = value_of peerings;
        })

  unfoldable pub collect_all :
      ℕ → Client Failure → Result (IngestError Failure WriteError) Collected
  collect_all earliest client =
      join_five earliest (collect_security_groups client) (collect_network_acls client)
        (collect_route_tables client) (collect_network_interfaces client)
        (collect_vpc_peering_connections client)
