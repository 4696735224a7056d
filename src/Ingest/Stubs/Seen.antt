-- ===== src/Ingest/Stubs/Seen.antt =====
-- crates/core/src/ingest/map/topology.rs: proofs about the stubs of the ids that are seen.
use aws_net_hound.Base.{
  ◌≡◌, refl, true, List, [], ◌++◌, String, All, All-append, All-map, map, contains,
}
use aws_net_hound.Base.Ordered.{
  values, insert_all, insert_all-has, insert_all-keeps, insert_all-CarriesKeys, CarriesKeys,
  contains_of_has_key,
}
use aws_net_hound.Graph.Model.{VpcRecord, SubnetRecord}
use aws_net_hound.Ingest.Sdk.{
  NetworkInterface, SecurityGroup, NetworkAcl, RouteTable, VpcPeeringConnection,
}
use aws_net_hound.Ingest.Stubs.{
  VpcStubs, SubnetStubs, collect_vpc_stubs, sighted_vpc_ids, peered_vpc_ids, insert_vpc_stub,
  collect_subnet_stubs, sighted_subnets, insert_subnet_stub,
}

abbrev pub vpc_ids : VpcStubs → List String
vpc_ids stubs = map (λ (vpc : VpcRecord). vpc.id) (values stubs)

abbrev pub subnet_stub_ids : SubnetStubs → List String
subnet_stub_ids stubs = map (λ (subnet : SubnetRecord). subnet.id) (values stubs)

abbrev vpc_stub : String → String → VpcRecord
vpc_stub account id = record { id = id; account_id = account; cidr_block = "" }

abbrev subnet_stub : String → String × String → SubnetRecord
subnet_stub account (id, vpc_id) = record {
  id = id;
  account_id = account;
  vpc_id = vpc_id;
  cidr_block = "";
  availability_zone = "";
}

module _ (account : String) where
  module _ (groups : List SecurityGroup) (acls : List NetworkAcl) (tables : List RouteTable)
      (enis : List NetworkInterface) (peerings : List VpcPeeringConnection) where
    abbrev stubs : VpcStubs
    stubs = collect_vpc_stubs account groups acls tables enis peerings

    abbrev sighted : List String
    sighted = sighted_vpc_ids groups acls tables enis

    abbrev peered : List String
    peered = peered_vpc_ids account peerings

    stubs-CarriesKeys : CarriesKeys (λ (vpc : VpcRecord). vpc.id) stubs
    unfolding collect_vpc_stubs insert_vpc_stub
    stubs-CarriesKeys =
        insert_all-CarriesKeys (λ (vpc : VpcRecord). vpc.id) (λ x. x) (vpc_stub account) (λ x. refl)
          peered _
          (insert_all-CarriesKeys (λ (vpc : VpcRecord). vpc.id) (λ x. x) (vpc_stub account)
            (λ x. refl) sighted [] tt)

    -- Each VPC that a resource names, and each of the account's own that a peering names, is a node.
    pub collect_vpc_stubs-contains :
        All (λ id. contains (vpc_ids stubs) id ≡ true) (sighted ++ peered)
    unfolding collect_vpc_stubs insert_vpc_stub
    collect_vpc_stubs-contains =
        let first = insert_all (λ x. x) (vpc_stub account) [] sighted in
        All-map _
          (λ id h. contains_of_has_key (λ (vpc : VpcRecord). vpc.id) id stubs stubs-CarriesKeys h)
          (sighted ++ peered)
          (All-append _ sighted peered
            (All-map _ (λ id h. insert_all-keeps (λ x. x) (vpc_stub account) id peered first h)
              sighted (insert_all-has (λ x. x) (vpc_stub account) sighted []))
            (insert_all-has (λ x. x) (vpc_stub account) peered first))

  module _ (enis : List NetworkInterface) (acls : List NetworkAcl) (tables : List RouteTable) where
    -- Each subnet that a resource names is a node.
    pub collect_subnet_stubs-contains :
        All
          (λ ((id, _) : String × String).
            contains (subnet_stub_ids (collect_subnet_stubs account enis acls tables)) id ≡ true)
          (sighted_subnets enis acls tables)
    unfolding collect_subnet_stubs insert_subnet_stub
    collect_subnet_stubs-contains =
        let seen = sighted_subnets enis acls tables in
        All-map _
          (λ ((id, _) : String × String) h.
            contains_of_has_key (λ (subnet : SubnetRecord). subnet.id) id _
              (insert_all-CarriesKeys (λ (subnet : SubnetRecord). subnet.id)
                (λ ((key, _) : String × String). key) (subnet_stub account) (λ x. refl) seen [] tt)
              h)
          seen (insert_all-has (λ ((key, _) : String × String). key) (subnet_stub account) seen [])
