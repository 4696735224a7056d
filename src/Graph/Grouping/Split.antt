-- ===== src/Graph/Grouping/Split.antt =====
-- crates/core/src/graph/neo4j.rs: proofs about the grouping of the rule edges.
use mathlib.Core.List.{foldl, append_assoc, append-nil}
use aws_net_hound.Base.{
  ◌≡◌, refl, sym, ◌∙◌, Bool, not, List, [], ◌∷◌, ◌++◌, String, flat_map, if◌then◌else◌, ◌⊎◌, inl,
  inr, Bool-cases,
}
use aws_net_hound.Domain.Rule.{SgRule, RuleTarget, cidr, security_group_ref}
use aws_net_hound.Graph.Bolt.{Props}
use aws_net_hound.Graph.Model.{SgRuleBatch}
use aws_net_hound.Graph.Rows.{SplitRows, sg_rule_cidr_row, sg_rule_sg_ref_row}
use aws_net_hound.Graph.Grouping.{split_rule, split_sg_rule_rows}

-- The row of a rule, where it is of that kind.
abbrev pub cidr_row_of : String → RuleTarget → SgRule → List Props
cidr_row_of group (cidr block) rule = sg_rule_cidr_row group rule block ∷ []
cidr_row_of group (security_group_ref id) rule = []

abbrev pub ref_row_of : String → RuleTarget → Bool → SgRule → List Props
ref_row_of group (cidr block) resolved rule = []
ref_row_of group (security_group_ref id) resolved rule =
    if resolved then sg_rule_sg_ref_row group rule id ∷ [] else []

-- The rows of each kind, batch by batch.
abbrev pub rows_of : (String → SgRule → List Props) → List SgRuleBatch → List Props
rows_of row batches =
    flat_map (λ (batch : SgRuleBatch). flat_map (row batch.security_group_id) batch.rules) batches

abbrev pub cidr_rows : String → SgRule → List Props
cidr_rows group rule = cidr_row_of group rule.target rule

abbrev pub resolved_rows : String → SgRule → List Props
resolved_rows group rule = ref_row_of group rule.target rule.resolved rule

abbrev pub unresolved_rows : String → SgRule → List Props
unresolved_rows group rule = ref_row_of group rule.target (not rule.resolved) rule

abbrev add : SplitRows → List Props → List Props → List Props → SplitRows
add rows first second third = record {
  cidr_rows = rows.cidr_rows ++ first;
  sg_ref_resolved_rows = rows.sg_ref_resolved_rows ++ second;
  sg_ref_unresolved_rows = rows.sg_ref_unresolved_rows ++ third;
}

Target-cases :
    (t : RuleTarget)
    → ((block : String) × (t ≡ cidr block)) ⊎ ((id : String) × (t ≡ security_group_ref id))
Target-cases (cidr block) = inl (block, refl)
Target-cases (security_group_ref id) = inr (id, refl)

-- Adding nothing, and adding twice.
add_nil : (rows : SplitRows) → add rows [] [] [] ≡ rows
add_nil rows = cc (
  append-nil rows.cidr_rows,
  append-nil rows.sg_ref_resolved_rows,
  append-nil rows.sg_ref_unresolved_rows,
)

add_assoc :
    (rows : SplitRows) (a b c a' b' c' : List Props)
    → add (add rows a b c) a' b' c' ≡ add rows (a ++ a') (b ++ b') (c ++ c')
add_assoc rows a b c a' b' c' = cc (
  append_assoc rows.cidr_rows a a',
  append_assoc rows.sg_ref_resolved_rows b b',
  append_assoc rows.sg_ref_unresolved_rows c c',
)

split_rule_lem :
    (group : String) (rows : SplitRows) (rule : SgRule)
    → split_rule group rows rule
      ≡ add rows (cidr_rows group rule) (resolved_rows group rule) (unresolved_rows group rule)
unfolding split_rule
split_rule_lem group rows rule = elim (Target-cases rule.target) [
  | inl (block, e) ↦
      rw (e, append-nil rows.sg_ref_resolved_rows, append-nil rows.sg_ref_unresolved_rows) refl
  | inr (id, e) ↦ elim (Bool-cases rule.resolved) [
    | inl h ↦ rw (e, h, append-nil rows.cidr_rows, append-nil rows.sg_ref_unresolved_rows) refl
    | inr h ↦ rw (e, h, append-nil rows.cidr_rows, append-nil rows.sg_ref_resolved_rows) refl
  ]
]

split_rules_lem :
    (group : String) (rows : SplitRows) (rules : List SgRule)
    → foldl (split_rule group) rows rules
      ≡ add rows
          (flat_map (cidr_rows group) rules)
          (flat_map (resolved_rows group) rules)
          (flat_map (unresolved_rows group) rules)
split_rules_lem group rows [] = sym (add_nil rows)
split_rules_lem group rows (rule ∷ rules) =
    split_rules_lem group (split_rule group rows rule) rules
    ∙ rw (split_rule_lem group rows rule) (add_assoc rows _ _ _ _ _ _)

abbrev split_batch : SplitRows → SgRuleBatch → SplitRows
split_batch rows batch = foldl (split_rule batch.security_group_id) rows batch.rules

split_batches_lem :
    (rows : SplitRows) (batches : List SgRuleBatch)
    → foldl split_batch rows batches
      ≡ add rows
          (rows_of cidr_rows batches)
          (rows_of resolved_rows batches)
          (rows_of unresolved_rows batches)
split_batches_lem rows [] = sym (add_nil rows)
split_batches_lem rows (batch ∷ batches) =
    split_batches_lem (split_batch rows batch) batches
    ∙ rw (split_rules_lem batch.security_group_id rows batch.rules) (add_assoc rows _ _ _ _ _ _)

-- The rows are those of the rules with a CIDR target, of the resolved references and of the
-- unresolved references, each in the order of the batches and of their rules.
pub split_sg_rule_rows_lem :
    (batches : List SgRuleBatch)
    → split_sg_rule_rows batches ≡ record {
      cidr_rows = rows_of cidr_rows batches;
      sg_ref_resolved_rows = rows_of resolved_rows batches;
      sg_ref_unresolved_rows = rows_of unresolved_rows batches;
    }
unfolding split_sg_rule_rows
split_sg_rule_rows_lem batches =
    split_batches_lem
      (record { cidr_rows = []; sg_ref_resolved_rows = []; sg_ref_unresolved_rows = [] }) batches
