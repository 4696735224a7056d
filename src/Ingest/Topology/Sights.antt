-- ===== src/Ingest/Topology/Sights.antt =====
-- crates/core/src/ingest/map/topology.rs: proofs about what each kind of resource names.
use aws_net_hound.Base.{
  ◌≡◌, refl, subst, Option, none, some, List, [], ◌∷◌, ◌++◌, String, All, All-map, map, present,
  flat_map,
}
use aws_net_hound.Base.Every.{
  All-split, All-flat_map_elim, All-map_elim, All-present_elim, some_unique,
}
use aws_net_hound.Ingest.Sdk.{
  NetworkInterface, SecurityGroup, NetworkAcl, RouteTable, VpcPeeringConnection,
}
use aws_net_hound.Ingest.Edges.{subnet_ids, sides}
use aws_net_hound.Ingest.Edges.Routes.{In, IsOwned}
use aws_net_hound.Ingest.Stubs.{
  collect_vpc_stubs, collect_subnet_stubs, sighted_vpc_ids, peered_vpc_ids, sighted_subnets,
  eni_sighting, sightings, own_vpc_id,
}
use aws_net_hound.Ingest.Stubs.Seen.{
  vpc_ids, subnet_stub_ids, collect_vpc_stubs-contains, collect_subnet_stubs-contains,
}

-- What the stubs know, of each kind of resource.
module _ (account : String) (groups : List SecurityGroup) (acls : List NetworkAcl)
    (tables : List RouteTable) (enis : List NetworkInterface)
    (peerings : List VpcPeeringConnection) where
  abbrev pub vpcs : List String
  vpcs = vpc_ids (collect_vpc_stubs account groups acls tables enis peerings)

  abbrev pub subnets : List String
  subnets = subnet_stub_ids (collect_subnet_stubs account enis acls tables)

  -- A VPC id, where it is there, is the id of a node.
  abbrev pub IsNamed : Option String → Type 0
  IsNamed o = (id : String) → o ≡ some id → In vpcs id

  pub table_vpcs : All (λ (table : RouteTable). IsNamed table.vpc_id) tables
  unfolding sighted_vpc_ids
  table_vpcs =
      let of_groups = map (λ (sg : SecurityGroup). sg.vpc_id) groups in
      let of_acls = map (λ (acl : NetworkAcl). acl.vpc_id) acls in
      let of_tables = map (λ (table : RouteTable). table.vpc_id) tables in
      let of_enis = map (λ (eni : NetworkInterface). eni.vpc_id) enis in
      let seen =
        (All-split (In vpcs) (sighted_vpc_ids groups acls tables enis)
          (peered_vpc_ids account peerings)
          (collect_vpc_stubs-contains account groups acls tables enis peerings)).0 in
      let each = All-present_elim (In vpcs) (of_groups ++ of_acls ++ of_tables ++ of_enis) seen in
      let three = (All-split IsNamed (of_groups ++ of_acls ++ of_tables) of_enis each).0 in
      All-map_elim IsNamed (λ (table : RouteTable). table.vpc_id) tables
        (All-split IsNamed (of_groups ++ of_acls) of_tables three).1

  pub peerings-IsOwned : All (λ peering. All (IsOwned account vpcs) (sides peering)) peerings
  unfolding peered_vpc_ids
  peerings-IsOwned =
      let seen =
        (All-split (In vpcs) (sighted_vpc_ids groups acls tables enis)
          (peered_vpc_ids account peerings)
          (collect_vpc_stubs-contains account groups acls tables enis peerings)).1 in
      let owned = λ (peering : VpcPeeringConnection). map (own_vpc_id account) (sides peering) in
      let each =
        All-flat_map_elim IsNamed owned peerings
          (All-present_elim (In vpcs) (flat_map owned peerings) seen) in
      All-map _ (λ peering h. All-map_elim IsNamed (own_vpc_id account) (sides peering) h) peerings
        each

  abbrev pub Sighted : String × String → Type 0
  Sighted (id, _) = In subnets id

  abbrev pub acl_sightings : NetworkAcl → List (String × String)
  acl_sightings acl = sightings acl.vpc_id (present acl.association_subnet_ids)

  abbrev pub table_sightings : RouteTable → List (String × String)
  table_sightings table = sightings table.vpc_id (subnet_ids table)

  abbrev pub AllSighted : List (String × String) → Type 0
  AllSighted = All Sighted

  pub sighted_subnets-In :
      All (λ eni. AllSighted (eni_sighting eni)) enis
      × All (λ acl. AllSighted (acl_sightings acl)) acls
      × All (λ table. AllSighted (table_sightings table)) tables
  unfolding sighted_subnets
  sighted_subnets-In =
      let of_enis = flat_map eni_sighting enis in
      let of_acls = flat_map acl_sightings acls in
      let of_tables = flat_map table_sightings tables in
      let seen = collect_subnet_stubs-contains account enis acls tables in
      let (first, third) = All-split Sighted (of_enis ++ of_acls) of_tables seen in
      let (first, second) = All-split Sighted of_enis of_acls first in
      (
        All-flat_map_elim Sighted eni_sighting enis first,
        All-flat_map_elim Sighted acl_sightings acls second,
        All-flat_map_elim Sighted table_sightings tables third,
      )

pub sighted_of_some :
    (P : String × String → Type 0) (vpc : String) (o : Option String) (ids : List String)
    → o ≡ some vpc
    → All P (sightings o ids)
    → All (λ id. P (id, vpc)) ids
sighted_of_some P vpc none ids e h = absurd cc
sighted_of_some P vpc (some own) ids e h =
    subst (λ v. All (λ id. P (id, v)) ids) (some_unique refl e)
      (All-map_elim P (λ id. (id, own)) ids h)

pub eni_sighted_of_some :
    (P : String × String → Type 0) (eni : NetworkInterface) (subnet vpc : String)
    → eni.subnet_id ≡ some subnet
    → eni.vpc_id ≡ some vpc
    → All P (eni_sighting eni)
    → P (subnet, vpc)
eni_sighted_of_some P eni subnet vpc e f h =
    let same : eni_sighting eni ≡ (subnet, vpc) ∷ [] = rw (e, f) refl in (subst (All P) same h).0
