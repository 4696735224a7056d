-- ===== src/Ingest/Edges/Routes.antt =====
-- crates/core/src/ingest/map/topology.rs: proofs about `resolve_route_target`.
use aws_net_hound.Base.{
  ◌≡◌, refl, Bool, true, false, Option, none, some, List, String, All, contains, Bool-cases, inl,
  inr, Option-cases,
}
use aws_net_hound.Base.Every.{All-find}
use aws_net_hound.Ingest.Sdk.{Route, VpcInfo, VpcPeeringConnection}
use aws_net_hound.Ingest.Edges.{resolve_route_target, other_side_of, target_of_side, sides, is_text}
use aws_net_hound.Ingest.Stubs.{own_vpc_id}

abbrev pub In : List String → String → Type 0
In ids id = contains ids id ≡ true

-- A route that has a target leads to a VPC node; one without is not resolved.
abbrev pub IsRouted : List String → Option String → Bool → Type 0
IsRouted vpcs (some vpc_id) resolved = (resolved ≡ true) × In vpcs vpc_id
IsRouted vpcs none resolved = resolved ≡ false

module _ (account : String) (vpcs : List String) where
  -- A side of a peering whose VPC, where the account owns it, is a node.
  abbrev pub IsOwned : VpcInfo → Type 0
  IsOwned info = (vpc_id : String) → own_vpc_id account info ≡ some vpc_id → In vpcs vpc_id

  target_of_side-IsRouted :
      (side : Option VpcInfo)
      → ((info : VpcInfo) → side ≡ some info → IsOwned info)
      → IsRouted vpcs (target_of_side account side).0 (target_of_side account side).1
  unfolding target_of_side
  target_of_side-IsRouted none h = refl
  target_of_side-IsRouted (some info) h = elim (Bool-cases (is_text info.owner_id account)) [
    | inr other ↦ rw other refl
    | inl own ↦ elim (Option-cases info.vpc_id) [
      | inl missing ↦ rw (own, missing) refl
      | inr (vpc_id, e) ↦ rw (own, e) (refl, h info refl vpc_id (rw (own, e) refl))
    ]
  ]

  other_side_of-IsOwned :
      (rt_vpc_id : String) (peering : Option VpcPeeringConnection)
      → ((found : VpcPeeringConnection) → peering ≡ some found → All IsOwned (sides found))
      → (info : VpcInfo) → other_side_of rt_vpc_id peering ≡ some info
      → IsOwned info
  unfolding other_side_of
  other_side_of-IsOwned rt_vpc_id none h info e = absurd cc
  other_side_of-IsOwned rt_vpc_id (some peering) h info e =
      All-find IsOwned _ (sides peering) info (h peering refl) e

  pub resolve_route_target-IsRouted :
      (rt_vpc_id : String) (route : Route) (peerings : List VpcPeeringConnection)
      → In vpcs rt_vpc_id
      → All (λ peering. All IsOwned (sides peering)) peerings
      → let target = resolve_route_target account rt_vpc_id route peerings in
        IsRouted vpcs target.0 target.1
  unfolding resolve_route_target
  resolve_route_target-IsRouted rt_vpc_id route peerings own h =
      elim (Bool-cases (is_text route.gateway_id "local")) [
        | inl local ↦ rw local (refl, own)
        | inr other ↦ elim (Option-cases route.vpc_peering_connection_id) [
          | inl missing ↦ rw (other, missing) refl
          | inr (pcx_id, e) ↦
              rw (other, e)
                (target_of_side-IsRouted _ (
                  other_side_of-IsOwned rt_vpc_id _ (λ found.
                    All-find (λ peering. All IsOwned (sides peering)) _ peerings found h)))
        ]
      ]
