-- ===== src/Evaluate/Candidates/Pairs.antt =====
-- crates/core/src/evaluate/candidates.rs: proofs about the candidates that are assembled.
use aws_net_hound.Base.{
  ◌≡◌, refl, sym, ap, subst, ◌∙◌, Bool, true, false, not, Option, none, some, List, [], ◌∷◌, String,
  str_eq, any, filter, contains, All, All-append, All-map, arith, Bool-cases, inl, inr,
  Option-cases,
}
use mathlib.Core.List.{Mem}
use aws_net_hound.Base.Every.{All-both, All-filter, All-mem_self}
use aws_net_hound.Domain.Rule.{SgRule, Direction, ingress, egress}
use aws_net_hound.Domain.Finding.{reachable}
use aws_net_hound.Net.{IpAddr, codes, parse_ip_addr}
use aws_net_hound.Evaluate.Types.{Protocol, Traffic}
use aws_net_hound.Evaluate.Match.{rule_protocol_matches}
use aws_net_hound.Evaluate.Sg.{PeerIdentity}
use aws_net_hound.Evaluate.Sg.Union.{permits}
use aws_net_hound.Evaluate.Path.{PathCandidate}
use aws_net_hound.Evaluate.Engine.{evaluate_candidate}
use aws_net_hound.Evaluate.Engine.Reachable.{reachable_iff}
use aws_net_hound.Evaluate.Candidates.{
  EniNode, RouteTargets, BoundarySelectors, candidate_of, candidates_of, pair_with, pair_all,
}

module _ (boundary_id : String) (targets : RouteTargets) (selectors : BoundarySelectors) where
  -- A candidate is made of two of the given interfaces: one in a VPC of the boundary, and one outside
  -- them whose address parses.
  pub record IsPair (enis : List EniNode) (c : PathCandidate) : Type 0 where
    pub destination : EniNode
    pub source : EniNode
    pub peer_address : IpAddr
    pub destination_given : Mem destination enis
    pub source_given : Mem source enis
    pub made : c ≡ candidate_of boundary_id targets destination source peer_address
    pub inside : contains selectors.vpc_ids destination.vpc_id ≡ true
    pub outside : contains selectors.vpc_ids source.vpc_id ≡ false
    pub parsed : parse_ip_addr (codes source.private_ip) ≡ some peer_address

  abbrev Inside : EniNode → Type 0
  Inside eni = contains selectors.vpc_ids eni.vpc_id ≡ true

  abbrev Outside : EniNode → Type 0
  Outside eni = contains selectors.vpc_ids eni.vpc_id ≡ false

  pub pair_with_of_none :
      (destination source : EniNode) (sources : List EniNode)
      → parse_ip_addr (codes source.private_ip) ≡ none
      → pair_with boundary_id targets destination sources
        ≡ pair_with boundary_id targets destination (source ∷ sources)
  unfolding pair_with
  pair_with_of_none destination source sources e = sym (rw (e, pair_with) refl)

  pub pair_with_of_some :
      (destination source : EniNode) (sources : List EniNode) (address : IpAddr)
      → parse_ip_addr (codes source.private_ip) ≡ some address
      → candidate_of boundary_id targets destination source address
          ∷ pair_with boundary_id targets destination sources
        ≡ pair_with boundary_id targets destination (source ∷ sources)
  unfolding pair_with
  pair_with_of_some destination source sources address e = sym (rw (e, pair_with) refl)

  module _ (enis : List EniNode) where
    abbrev Given : (EniNode → Type 0) → EniNode → Type 0
    Given P eni = Mem eni enis × P eni

    pair_with-IsPair :
        (destination : EniNode) (sources : List EniNode)
        → Given Inside destination
        → All (Given Outside) sources
        → All (IsPair enis) (pair_with boundary_id targets destination sources)
    unfolding pair_with
    pair_with-IsPair destination [] inside h = tt
    pair_with-IsPair destination (source ∷ sources) inside h =
        let rest = pair_with-IsPair destination sources inside h.1 in
        elim (Option-cases (parse_ip_addr (codes source.private_ip))) [
          | inl unparsed ↦
              subst (All (IsPair enis)) (pair_with_of_none destination source sources unparsed) rest
          | inr (address, parsed) ↦
              let pair : IsPair enis (candidate_of boundary_id targets destination source address) =
                record {
                  destination = destination;
                  source = source;
                  peer_address = address;
                  destination_given = inside.0;
                  source_given = h.0.0;
                  made = refl;
                  inside = inside.1;
                  outside = h.0.1;
                  parsed = parsed;
                } in
              subst (All (IsPair enis))
                (pair_with_of_some destination source sources address parsed) (pair, rest)
        ]

    pair_all-IsPair :
        (destinations sources : List EniNode)
        → All (Given Inside) destinations
        → All (Given Outside) sources
        → All (IsPair enis) (pair_all boundary_id targets destinations sources)
    unfolding pair_all
    pair_all-IsPair [] sources h k = tt
    pair_all-IsPair (destination ∷ destinations) sources h k =
        All-append (IsPair enis) (pair_with boundary_id targets destination sources) _
          (pair_with-IsPair destination sources h.0 k) (pair_all-IsPair destinations sources h.1 k)

  filter-Inside :
      (enis : List EniNode)
      → All Inside (filter (λ eni. contains selectors.vpc_ids eni.vpc_id) enis)
  filter-Inside [] = tt
  filter-Inside (eni ∷ enis) = elim (Bool-cases (contains selectors.vpc_ids eni.vpc_id)) [
    | inl inside ↦ rw inside (inside, filter-Inside enis)
    | inr outside ↦ rw outside (filter-Inside enis)
  ]

  filter-Outside :
      (enis : List EniNode)
      → All Outside (filter (λ eni. not (contains selectors.vpc_ids eni.vpc_id)) enis)
  filter-Outside [] = tt
  filter-Outside (eni ∷ enis) = elim (Bool-cases (contains selectors.vpc_ids eni.vpc_id)) [
    | inl inside ↦ rw inside (filter-Outside enis)
    | inr outside ↦ rw outside (outside, filter-Outside enis)
  ]

  -- Every candidate is such a pair, of the given boundary.
  pub candidates_of-IsPair :
      (enis : List EniNode) → All (IsPair enis) (candidates_of enis targets boundary_id selectors)
  unfolding candidates_of
  candidates_of-IsPair enis =
      let given = All-mem_self enis in
      pair_all-IsPair enis _ _ (All-both _ _ _ (All-filter _ _ enis given) (filter-Inside enis))
        (All-both _ _ _ (All-filter _ _ enis given) (filter-Outside enis))

rule_protocol_matches-all :
    (protocol : String) → rule_protocol_matches protocol Protocol.all ≡ str_eq protocol "-1"
unfolding rule_protocol_matches
rule_protocol_matches-all protocol = ground arith

abbrev pub is_all : SgRule → Bool
is_all rule = str_eq rule.protocol "-1"

any-is_all :
    (direction : Direction) (traffic : Traffic) (peer : PeerIdentity) (rules : List SgRule)
    → traffic.protocol ≡ Protocol.all
    → any (permits direction traffic peer) rules ≡ true
    → any is_all rules ≡ true
any-is_all direction traffic peer [] e h = h
any-is_all direction traffic peer (rule ∷ rules) e h =
    let only =
      ap (rule_protocol_matches rule.protocol) e ∙ rule_protocol_matches-all rule.protocol in
    ground (arith, only, any-is_all direction traffic peer rules e)

-- A candidate that is assembled can be found reachable only where a rule of protocol `-1` stands in
-- the security groups on either side.
pub candidates_of-reachable_only :
    (boundary_id : String) (targets : RouteTargets) (selectors : BoundarySelectors)
    (enis : List EniNode) (clock : Option String)
    → All
        (λ c.
          (evaluate_candidate clock c).reachability ≡ reachable
          → (any is_all c.source.security_group_rules ≡ true)
            × (any is_all c.destination.security_group_rules ≡ true))
        (candidates_of enis targets boundary_id selectors)
unfolding candidate_of
candidates_of-reachable_only boundary_id targets selectors enis clock =
    All-map _
      (λ c pair found.
        let all_traffic = ap (λ (p : PathCandidate). p.traffic.protocol) pair.made in
        let r = (reachable_iff clock c).0 found in
        (
          any-is_all egress c.traffic _ c.source.security_group_rules all_traffic r.sg_egress,
          any-is_all ingress c.traffic _ c.destination.security_group_rules all_traffic
              r.sg_ingress,
        ))
      (candidates_of enis targets boundary_id selectors)
      (candidates_of-IsPair boundary_id targets selectors enis)
