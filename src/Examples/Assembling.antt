-- ===== src/Examples/Assembling.antt =====
-- The theorems on candidates at concrete inputs.
use aws_net_hound.Base.{◌≡◌, true, none, List, [], ◌∷◌, All, any}
use aws_net_hound.Domain.Finding.{reachable}
use aws_net_hound.Evaluate.Path.{PathCandidate}
use aws_net_hound.Evaluate.Engine.{evaluate_candidate}
use aws_net_hound.Evaluate.Candidates.{EniNode, BoundarySelectors, candidates_of}
use aws_net_hound.Evaluate.Candidates.Pairs.{IsPair, is_all, candidates_of-reachable_only}
use aws_net_hound.Evaluate.Candidates.Complete.{IsComplete, candidates_of_lem}
use aws_net_hound.Examples.Samples.{to_everywhere, from_web, open_nacl}

abbrev web : EniNode
web = record {
  id = "eni-web";
  vpc_id = "vpc-web";
  subnet_id = "subnet";
  private_ip = "10.0.1.5";
  security_group_ids = "sg-web" ∷ [];
  egress_rules = to_everywhere ∷ [];
  ingress_rules = [];
  nacl_rules = open_nacl;
  route_table_id = none;
}

abbrev database : EniNode
database = record {
  id = "eni-db";
  vpc_id = "vpc-db";
  subnet_id = "subnet";
  private_ip = "10.0.1.6";
  security_group_ids = "sg-db" ∷ [];
  egress_rules = [];
  ingress_rules = from_web ∷ [];
  nacl_rules = open_nacl;
  route_table_id = none;
}

abbrev selectors : BoundarySelectors
selectors = record { vpc_ids = "vpc-db" ∷ []; cidrs = []; tags = [] }

abbrev enis : List EniNode
enis = web ∷ database ∷ []

candidates_of_lem_example :
    All (IsPair "pci" [] selectors enis) (candidates_of enis [] "pci" selectors)
    × IsComplete "pci" [] selectors enis (candidates_of enis [] "pci" selectors)
candidates_of_lem_example = candidates_of_lem "pci" [] selectors enis

candidates_of-reachable_only_example :
    All
      (λ (c : PathCandidate).
        (evaluate_candidate none c).reachability ≡ reachable
        → (any is_all c.source.security_group_rules ≡ true)
          × (any is_all c.destination.security_group_rules ≡ true))
      (candidates_of enis [] "pci" selectors)
candidates_of-reachable_only_example = candidates_of-reachable_only "pci" [] selectors enis none
