-- ===== src/Graph/Grouping.antt =====
-- crates/core/src/graph/neo4j.rs: the rule edges by their owner, and the rows of a batch of rules. The
-- order of a `HashMap` is never used, so it is kept here as a `BTreeMap` keeps it.
pub mod Split
use mathlib.Core.List.{foldl}
use aws_net_hound.Base.{Bool, true, false, List, [], ◌∷◌, ◌++◌, String, if◌then◌else◌}
use aws_net_hound.Base.Ordered.{push}
use aws_net_hound.Domain.Rule.{SgRule, NaclRule, RuleTarget, cidr, security_group_ref}
use aws_net_hound.Graph.Bolt.{Props}
use aws_net_hound.Graph.Model.{
  Edge, has_sg, in_subnet, protected_by, uses_route_table, routes_to, allows_ingress, allows_egress,
  has_rule, SgRuleBatch,
}
use aws_net_hound.Graph.Rows.{SplitRows, sg_rule_cidr_row, sg_rule_sg_ref_row}

-- The three maps of `group_rule_edges`.
pub record Grouped : Type 0 where
  pub egress : List (String × List SgRule)
  pub ingress : List (String × List SgRule)
  pub nacl : List (String × List NaclRule)

abbrev pub group_edge : Grouped → Edge → Grouped
group_edge grouped (allows_egress id rule) = record grouped { egress = push id rule grouped.egress }
group_edge grouped (allows_ingress id rule) = record grouped {
  ingress = push id rule grouped.ingress;
}
group_edge grouped (has_rule id rule) = record grouped { nacl = push id rule grouped.nacl }
group_edge grouped _ = grouped

unfoldable pub group_rule_edges : List Edge → Grouped
group_rule_edges edges = foldl group_edge (record { egress = []; ingress = []; nacl = [] }) edges

-- The body of the inner loop of `split_sg_rule_rows`.
unfoldable pub split_rule : String → SplitRows → SgRule → SplitRows
split_rule security_group_id rows rule = elim rule.target [
  | cidr block ↦ record rows {
    cidr_rows = rows.cidr_rows ++ sg_rule_cidr_row security_group_id rule block ∷ [];
  }
  | security_group_ref id ↦
      let row = sg_rule_sg_ref_row security_group_id rule id in
      if rule.resolved
      then record rows { sg_ref_resolved_rows = rows.sg_ref_resolved_rows ++ row ∷ [] }
      else record rows { sg_ref_unresolved_rows = rows.sg_ref_unresolved_rows ++ row ∷ [] }
]

unfoldable pub split_sg_rule_rows : List SgRuleBatch → SplitRows
unfolding split_rule
split_sg_rule_rows batches =
    foldl
      (λ rows (batch : SgRuleBatch). foldl (split_rule batch.security_group_id) rows batch.rules)
      (record { cidr_rows = []; sg_ref_resolved_rows = []; sg_ref_unresolved_rows = [] }) batches
