-- ===== src/Ingest/Pipeline/Agreement.antt =====
-- crates/core/src/ingest/pipeline.rs and graph/neo4j.rs: proofs on the groupings.
use mathlib.Core.List.{foldl}
use aws_net_hound.Base.{◌≡◌, refl, List, [], ◌∷◌, String, present, map}
use aws_net_hound.Base.Ordered.{push}
use aws_net_hound.Graph.Model.{
  Edge, has_sg, in_subnet, protected_by, uses_route_table, routes_to, allows_ingress, allows_egress,
  has_rule,
}
use aws_net_hound.Graph.Grouping.{Grouped, group_edge, group_rule_edges}
use aws_net_hound.Ingest.Pipeline.{group_by, as_egress, as_ingress, as_nacl}

abbrev push_all : {V : Type 0} → List (String × List V) → List (String × V) → List (String × List V)
push_all m pairs = foldl (λ grouped ((key, value) : String × _). push key value grouped) m pairs

-- All three maps, from where they stand.
abbrev onward : Grouped → List Edge → Grouped
onward g edges = record {
  egress = push_all g.egress (present (map as_egress edges));
  ingress = push_all g.ingress (present (map as_ingress edges));
  nacl = push_all g.nacl (present (map as_nacl edges));
}

group_edges : (g : Grouped) (edges : List Edge) → foldl group_edge g edges ≡ onward g edges
group_edges g [] = refl
group_edges g (has_sg edge ∷ edges) = group_edges g edges
group_edges g (in_subnet edge ∷ edges) = group_edges g edges
group_edges g (protected_by edge ∷ edges) = group_edges g edges
group_edges g (uses_route_table edge ∷ edges) = group_edges g edges
group_edges g (routes_to edge ∷ edges) = group_edges g edges
group_edges g (allows_ingress id rule ∷ edges) =
    group_edges (record g { ingress = push id rule g.ingress }) edges
group_edges g (allows_egress id rule ∷ edges) =
    group_edges (record g { egress = push id rule g.egress }) edges
group_edges g (has_rule id rule ∷ edges) =
    group_edges (record g { nacl = push id rule g.nacl }) edges

-- `group_rule_edges` gives the three groupings that the pipeline writes.
pub group_rule_edges-agrees :
    (edges : List Edge)
    → group_rule_edges edges ≡ record {
      egress = group_by (present (map as_egress edges));
      ingress = group_by (present (map as_ingress edges));
      nacl = group_by (present (map as_nacl edges));
    }
unfolding group_rule_edges group_by
group_rule_edges-agrees edges = group_edges (record { egress = []; ingress = []; nacl = [] }) edges
