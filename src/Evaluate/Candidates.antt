-- ===== src/Evaluate/Candidates.antt =====
-- crates/core/src/evaluate/candidates.rs: the pairs of network interfaces that are judged. The rows
-- that the driver gives for the two queries are arguments.
pub mod Rows
pub mod Fetch
pub mod RoundTrip
pub mod Pairs
pub mod Complete
use aws_net_hound.Base.{
  contains, Bool, true, false, ◌||◌, not, Option, none, some, List, [], ◌∷◌, ◌++◌, String, str_eq,
  any, filter, if◌then◌else◌,
}
use aws_net_hound.Base.Assoc.{lookup}
use aws_net_hound.Domain.Rule.{SgRule, NaclRule}
use aws_net_hound.Net.{IpAddr, codes, parse_ip_addr}
use aws_net_hound.Evaluate.Types.{Traffic, Protocol}
use aws_net_hound.Evaluate.Path.{EndpointCandidate, PathCandidate}

pub record BoundarySelectors : Type 0 where
  pub vpc_ids : List String
  pub cidrs : List String
  pub tags : List String

pub record EniNode : Type 0 where
  pub id : String
  pub vpc_id : String
  pub subnet_id : String
  pub private_ip : String
  pub security_group_ids : List String
  pub egress_rules : List SgRule
  pub ingress_rules : List SgRule
  pub nacl_rules : List NaclRule
  pub route_table_id : Option String

unfoldable pub source_endpoint : EniNode → EndpointCandidate
source_endpoint eni = record {
  eni_id = eni.id;
  peer_security_group_ids = eni.security_group_ids;
  security_group_rules = eni.egress_rules;
  subnet_id = eni.subnet_id;
  nacl_rules = eni.nacl_rules;
}

unfoldable pub destination_endpoint : EniNode → EndpointCandidate
destination_endpoint eni = record {
  eni_id = eni.id;
  peer_security_group_ids = eni.security_group_ids;
  security_group_rules = eni.ingress_rules;
  subnet_id = eni.subnet_id;
  nacl_rules = eni.nacl_rules;
}

-- `HashMap<String, Vec<String>>`: the VPCs that a route table routes to.
abbrev pub RouteTargets : Type 0
RouteTargets = List (String × List String)

shares_target : Option (List String) → Option (List String) → String → Bool
shares_target (some source_targets) (some destination_targets) destination_vpc =
    any (λ vpc_id. contains destination_targets vpc_id || str_eq vpc_id destination_vpc)
      source_targets
shares_target _ _ _ = false

route_between : Option String → Option String → RouteTargets → String → Bool
unfolding shares_target
route_between (some source_rt) (some destination_rt) targets destination_vpc =
    shares_target (lookup source_rt targets) (lookup destination_rt targets) destination_vpc
route_between _ _ _ _ = false

unfoldable pub route_exists : EniNode → EniNode → RouteTargets → Bool
unfolding route_between
route_exists source destination targets =
    if str_eq source.subnet_id destination.subnet_id
    then true
    else route_between source.route_table_id destination.route_table_id targets destination.vpc_id

unfoldable pub candidate_of : String → RouteTargets → EniNode → EniNode → IpAddr → PathCandidate
unfolding source_endpoint destination_endpoint route_exists
candidate_of boundary_id targets destination source peer_address = record {
  source = source_endpoint source;
  destination = destination_endpoint destination;
  route_exists = route_exists source destination targets;
  traffic = record { protocol = Protocol.all; port = none; peer_address = peer_address };
  destination_boundary = boundary_id;
}

-- The inner loop: a source whose address does not parse is skipped.
pub pair_with : String → RouteTargets → EniNode → List EniNode → List PathCandidate
unfolding candidate_of
pair_with boundary_id targets destination [] = []
pair_with boundary_id targets destination (source ∷ sources) =
    elim (parse_ip_addr (codes source.private_ip)) [
      | none ↦ pair_with boundary_id targets destination sources
      | some peer_address ↦
          candidate_of boundary_id targets destination source peer_address
          ∷ pair_with boundary_id targets destination sources
    ]

unfoldable pub pair_all : String → RouteTargets → List EniNode → List EniNode → List PathCandidate
unfolding pair_with
pair_all boundary_id targets [] sources = []
pair_all boundary_id targets (destination ∷ destinations) sources =
    pair_with boundary_id targets destination sources
    ++ pair_all boundary_id targets destinations sources

-- The pairs that `assemble_candidates` makes of what its two queries gave. Of the selectors only
-- `vpc_ids` matters.
unfoldable pub candidates_of :
    List EniNode → RouteTargets → String → BoundarySelectors → List PathCandidate
unfolding pair_all
candidates_of enis targets boundary_id selectors =
    let in_boundary = λ (eni : EniNode). contains selectors.vpc_ids eni.vpc_id in
    pair_all boundary_id targets (filter in_boundary enis)
      (filter (λ eni. not (in_boundary eni)) enis)
