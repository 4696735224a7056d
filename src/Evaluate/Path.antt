-- ===== src/Evaluate/Path.antt =====
-- crates/core/src/evaluate/path.rs: a path to judge, and the evidence of a judgement.
use aws_net_hound.Base.{ℕ, Bool, List, String}
use aws_net_hound.Domain.Rule.{SgRule, NaclRule}
use aws_net_hound.Evaluate.Types.{Traffic, Verdict}

pub record EndpointCandidate : Type 0 where
  pub eni_id : String
  pub peer_security_group_ids : List String
  pub security_group_rules : List SgRule
  pub subnet_id : String
  pub nacl_rules : List NaclRule

pub record PathCandidate : Type 0 where
  pub source : EndpointCandidate
  pub destination : EndpointCandidate
  pub route_exists : Bool
  pub traffic : Traffic
  pub destination_boundary : String

pub data EvaluationLayer : Type 0 where
  sg_egress nacl_egress nacl_ingress sg_ingress : EvaluationLayer

-- The derived `Ord`: the place in the declaration.
abbrev pub layer_rank : EvaluationLayer → ℕ
layer_rank sg_egress = 0
layer_rank nacl_egress = 1
layer_rank nacl_ingress = 2
layer_rank sg_ingress = 3

pub record EvaluationStep : Type 0 where
  pub layer : EvaluationLayer
  pub resource_id : String
  pub verdict : Verdict

pub record PathEvidence : Type 0 where
  pub steps : List EvaluationStep
