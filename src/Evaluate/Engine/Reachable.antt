-- ===== src/Evaluate/Engine/Reachable.antt =====
-- crates/core/src/evaluate/engine.rs: proofs about when a path is found reachable.
use aws_net_hound.Base.{◌≡◌, sym, ◌∙◌, ◌↔◌, true, Option, String, any, arith, Bool-cases, inl, inr}
use aws_net_hound.Domain.Rule.{Direction, ingress, egress, NaclRule, allow}
use aws_net_hound.Domain.Finding.{reachable}
use aws_net_hound.Evaluate.Types.{Traffic, is_allowed}
use aws_net_hound.Evaluate.Nacl.{evaluate_nacl_egress, evaluate_nacl_ingress}
use aws_net_hound.Evaluate.Nacl.FirstMatch as Nacl
use aws_net_hound.Evaluate.Sg.{PeerIdentity, evaluate_sg_egress, evaluate_sg_ingress}
use aws_net_hound.Evaluate.Sg.Union.{permits}
use aws_net_hound.Evaluate.Sg.Strength as Sg
use aws_net_hound.Evaluate.Path.{PathCandidate, EndpointCandidate}
use aws_net_hound.Evaluate.Engine.{evaluate_candidate}
use aws_net_hound.Evaluate.Engine.Evidence.{
  all_layers, outcome_of_first_refusal, reachability_first_refusal,
}

-- Some rule of the endpoint's security groups permits the traffic with that peer.
abbrev pub SgPermits : Direction → Traffic → EndpointCandidate → EndpointCandidate → Type 0
SgPermits direction traffic own peer =
    any (permits direction traffic (record { security_group_ids = peer.peer_security_group_ids }))
      own.security_group_rules
    ≡ true

-- The network ACL rule that decides at the endpoint is an allow rule.
abbrev pub NaclPermits : Direction → Traffic → EndpointCandidate → Type 0
NaclPermits direction traffic own =
    (rule : NaclRule) × Nacl.Decides direction traffic own.nacl_rules rule × (rule.action ≡ allow)

pub record IsReachable (c : PathCandidate) : Type 0 where
  pub route : c.route_exists ≡ true
  pub sg_egress : SgPermits egress c.traffic c.source c.destination
  pub nacl_egress : NaclPermits egress c.traffic c.source
  pub nacl_ingress : NaclPermits ingress c.traffic c.destination
  pub sg_ingress : SgPermits ingress c.traffic c.destination c.source

module _ (c : PathCandidate) where
  abbrev destination_peer : PeerIdentity
  destination_peer = record { security_group_ids = c.destination.peer_security_group_ids }

  abbrev source_peer : PeerIdentity
  source_peer = record { security_group_ids = c.source.peer_security_group_ids }

  -- The four layers, as tests.
  record AllAllowed : Type 0 where
    first :
        is_allowed (
          evaluate_sg_egress c.source.eni_id c.source.security_group_rules c.traffic
            destination_peer)
        ≡ true
    second :
        is_allowed (evaluate_nacl_egress c.source.subnet_id c.source.nacl_rules c.traffic) ≡ true
    third :
        is_allowed
          (evaluate_nacl_ingress c.destination.subnet_id c.destination.nacl_rules c.traffic)
        ≡ true
    fourth :
        is_allowed (
          evaluate_sg_ingress c.destination.eni_id c.destination.security_group_rules c.traffic
            source_peer)
        ≡ true

  reachable_of_AllAllowed : AllAllowed → outcome_of_first_refusal (all_layers c) ≡ reachable
  reachable_of_AllAllowed a = ground arith

  AllAllowed_of_reachable : outcome_of_first_refusal (all_layers c) ≡ reachable → AllAllowed
  AllAllowed_of_reachable h = ground arith

  AllAllowed→IsReachable : c.route_exists ≡ true → AllAllowed → IsReachable c
  unfolding evaluate_sg_egress evaluate_nacl_egress evaluate_nacl_ingress evaluate_sg_ingress
  AllAllowed→IsReachable route a = record {
    route = route;
    sg_egress = sym (Sg.is_allowed-evaluate _ egress c.traffic destination_peer _) ∙ a.first;
    nacl_egress = (Nacl.is_allowed-evaluate_iff _ egress c.traffic _).0 a.second;
    nacl_ingress = (Nacl.is_allowed-evaluate_iff _ ingress c.traffic _).0 a.third;
    sg_ingress = sym (Sg.is_allowed-evaluate _ ingress c.traffic source_peer _) ∙ a.fourth;
  }

  IsReachable→AllAllowed : IsReachable c → AllAllowed
  unfolding evaluate_sg_egress evaluate_nacl_egress evaluate_nacl_ingress evaluate_sg_ingress
  IsReachable→AllAllowed r = record {
    first = Sg.is_allowed-evaluate _ egress c.traffic destination_peer _ ∙ r.sg_egress;
    second = (Nacl.is_allowed-evaluate_iff _ egress c.traffic _).1 r.nacl_egress;
    third = (Nacl.is_allowed-evaluate_iff _ ingress c.traffic _).1 r.nacl_ingress;
    fourth = Sg.is_allowed-evaluate _ ingress c.traffic source_peer _ ∙ r.sg_ingress;
  }

-- The finding says reachable exactly when there is a route, some security group rule permits the
-- traffic on either side, and on either side the network ACL rule that decides is an allow rule.
pub reachable_iff :
    (clock : Option String) (c : PathCandidate)
    → ((evaluate_candidate clock c).reachability ≡ reachable) ↔ IsReachable c
reachable_iff clock c = (
  (λ h. elim (Bool-cases c.route_exists) [
    | inl route ↦
        AllAllowed→IsReachable c route
          (AllAllowed_of_reachable c (ground (arith, reachability_first_refusal clock c)))
    | inr no_route ↦ absurd (ground (arith, reachability_first_refusal clock c))
  ]),
  (λ r.
      let settled = reachable_of_AllAllowed c (IsReachable→AllAllowed c r) in
      let route : c.route_exists ≡ true = r.route in
      reachability_first_refusal clock c ∙ rw route settled),
)
