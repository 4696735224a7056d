-- ===== src/Ingest/Collect/Pages.antt =====
-- crates/core/src/ingest/collect.rs: proofs about what is collected of the pages.
use aws_net_hound.Base.{
  ◌≡◌, refl, sym, ap, ◌∙◌, ◌↔◌, ℕ, Option, none, some, List, [], ◌++◌, String, flat_map, Result, ok,
  err, arith,
}
use mathlib.Core.List.{append-nil, append_assoc}
use aws_net_hound.Base.Streams.{Stream, closed, broken, item, items_of, failure_of}
use aws_net_hound.Base.Traverse.{ok_unique}
use aws_net_hound.Ingest.Errors.{IngestError, describe}
use aws_net_hound.Ingest.Collect.{
  Client, or_empty, drain_from, drain_pages, Pages, join_five, collect_all,
}
use aws_net_hound.Ingest.Sdk.{
  SecurityGroup, NetworkAcl, RouteTable, NetworkInterface, VpcPeeringConnection,
}
use aws_net_hound.Ingest.Topology.{Collected}

module _ {Failure : Type 0} where
  -- Everything that a client's pages hold.
  abbrev pub everything : Client Failure → Collected
  everything client = record {
    security_groups = flat_map or_empty (items_of client.describe_security_groups);
    network_acls = flat_map or_empty (items_of client.describe_network_acls);
    route_tables = flat_map or_empty (items_of client.describe_route_tables);
    network_interfaces = flat_map or_empty (items_of client.describe_network_interfaces);
    vpc_peering_connections = flat_map or_empty (items_of client.describe_vpc_peering_connections);
  }

  -- No paginator ended with an error.
  abbrev pub IsComplete : Client Failure → Type 0
  IsComplete client =
      (failure_of client.describe_security_groups ≡ none)
      × (failure_of client.describe_network_acls ≡ none)
      × (failure_of client.describe_route_tables ≡ none)
      × (failure_of client.describe_network_interfaces ≡ none)
      × (failure_of client.describe_vpc_peering_connections ≡ none)

abbrev Collects : Type 0 → Type 0 → Type 0 → Type 0
Collects Failure WriteError A = Result (IngestError Failure WriteError) (List A)

module _ {Failure WriteError : Type 0} where
  -- All items of all pages, in their order, or the error that the pages end with.
  abbrev pub drained :
      {A : Type 0}
      → String
      → Option Failure
      → List A
      → Result (IngestError Failure WriteError) (List A)
  drained operation none items = ok items
  drained operation (some failure) items = err (describe operation failure)

  drain_from-drained :
      {Output Item : Type 0} (operation : String) (extract : Output → List Item) (items : List Item)
      (pages : Stream Failure Output)
      → drain_from {WriteError = WriteError} operation extract items pages
        ≡ drained operation (failure_of pages) (items ++ flat_map extract (items_of pages))
  unfolding drain_from
  drain_from-drained operation extract items closed = ap ok (sym (append-nil items))
  drain_from-drained operation extract items (broken failure) = refl
  drain_from-drained operation extract items (item output rest) =
      drain_from-drained operation extract (items ++ extract output) rest
      ∙ ap (drained operation (failure_of rest)) (append_assoc items (extract output) _)

  drain_pages-drained :
      {Output Item : Type 0} (operation : String) (pages : Stream Failure Output)
      (extract : Output → List Item)
      → drain_pages {WriteError = WriteError} operation pages extract
        ≡ drained operation (failure_of pages) (flat_map extract (items_of pages))
  unfolding drain_pages
  drain_pages-drained operation pages extract = drain_from-drained operation extract [] pages

  drained-ok :
      {A : Type 0} (operation : String) (o : Option Failure) (items found : List A)
      → drained operation o items ≡ ok found
      → (o ≡ none) × (found ≡ items)
  drained-ok operation none items found h = (refl, sym (ok_unique refl h))
  drained-ok operation (some failure) items found h = absurd cc

  -- What one paginator gives.
  drain_pages-ok :
      {A : Type 0} (operation : String) (pages : Pages Failure A) (found : List A)
      → drain_pages {WriteError = WriteError} operation pages or_empty ≡ ok found
      → (failure_of pages ≡ none) × (found ≡ flat_map or_empty (items_of pages))
  drain_pages-ok operation pages found h =
      drained-ok operation (failure_of pages) _ found
        (sym (drain_pages-drained operation pages or_empty) ∙ h)

  drain_pages_complete :
      {A : Type 0} (operation : String) (pages : Pages Failure A)
      → failure_of pages ≡ none
      → drain_pages {WriteError = WriteError} operation pages or_empty
        ≡ ok (flat_map or_empty (items_of pages))
  drain_pages_complete operation pages h =
      drain_pages-drained operation pages or_empty
      ∙ ap (λ o. drained operation o (flat_map or_empty (items_of pages))) h

  join_five-ok :
      (earliest : ℕ) (groups : Collects Failure WriteError SecurityGroup)
      (acls : Collects Failure WriteError NetworkAcl)
      (tables : Collects Failure WriteError RouteTable)
      (enis : Collects Failure WriteError NetworkInterface)
      (peerings : Collects Failure WriteError VpcPeeringConnection) (raw : Collected)
      → join_five earliest groups acls tables enis peerings ≡ ok raw
      → (groups ≡ ok raw.security_groups)
        × (acls ≡ ok raw.network_acls)
        × (tables ≡ ok raw.route_tables)
        × (enis ≡ ok raw.network_interfaces)
        × (peerings ≡ ok raw.vpc_peering_connections)
  join_five-ok n (err e) acls tables enis peerings raw h = absurd cc
  join_five-ok n (ok a) (err e) tables enis peerings raw h = absurd cc
  join_five-ok n (ok a) (ok b) (err e) enis peerings raw h = absurd cc
  join_five-ok n (ok a) (ok b) (ok c) (err e) peerings raw h = absurd cc
  join_five-ok n (ok a) (ok b) (ok c) (ok d) (err e) raw h = absurd cc
  join_five-ok n (ok a) (ok b) (ok c) (ok d) (ok f) raw h =
      let same = ok_unique refl h in
      (
        ap (λ (r : Collected). ok r.security_groups) same,
        ap (λ (r : Collected). ok r.network_acls) same,
        ap (λ (r : Collected). ok r.route_tables) same,
        ap (λ (r : Collected). ok r.network_interfaces) same,
        ap (λ (r : Collected). ok r.vpc_peering_connections) same,
      )

  -- The five collections succeed exactly when no paginator ends with an error, whichever error would
  -- come first, and then they hold every item of every page in the order of the pages.
  pub collect_all_iff :
      (earliest : ℕ) (client : Client Failure) (raw : Collected)
      → (collect_all {WriteError = WriteError} earliest client ≡ ok raw)
        ↔ (IsComplete client × (raw ≡ everything client))
  unfolding collect_all
  collect_all_iff earliest client raw = (
    (λ h.
        let (groups, acls, tables, enis, peerings) = join_five-ok earliest _ _ _ _ _ raw h in
        let g = drain_pages-ok _ client.describe_security_groups raw.security_groups groups in
        let a = drain_pages-ok _ client.describe_network_acls raw.network_acls acls in
        let t = drain_pages-ok _ client.describe_route_tables raw.route_tables tables in
        let e = drain_pages-ok _ client.describe_network_interfaces raw.network_interfaces enis in
        let p =
          drain_pages-ok _ client.describe_vpc_peering_connections raw.vpc_peering_connections
            peerings in
        ((g.0, a.0, t.0, e.0, p.0), ground (arith, g.1, a.1, t.1, e.1, p.1))),
    (λ (complete, same).
        rw
          (
            same,
            drain_pages_complete "DescribeSecurityGroups" client.describe_security_groups
                complete.0,
            drain_pages_complete "DescribeNetworkAcls" client.describe_network_acls complete.1,
            drain_pages_complete "DescribeRouteTables" client.describe_route_tables complete.2,
            drain_pages_complete "DescribeNetworkInterfaces" client.describe_network_interfaces
                complete.3,
            drain_pages_complete "DescribeVpcPeeringConnections"
                client.describe_vpc_peering_connections complete.4,
          )
          refl),
  )
