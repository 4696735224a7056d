-- ===== src/Ingest/Pipeline/Consistent.antt =====
-- crates/core/src/ingest/pipeline.rs and graph/neo4j.rs: proofs about the routes of a batch as they are
-- written.
use aws_net_hound.Base.{
  ◌≡◌, refl, sym, ◌∙◌, ap, not, Bool, false, Option, none, some, List, [], ◌∷◌, String, All,
  All-map, map, present, find?, ok,
}
use aws_net_hound.Base.Effect.{◌>>◌}
use aws_net_hound.Base.Every.{All-present, All-map_intro, some_unique}
use aws_net_hound.Graph.Cypher.{routes_to_resolved_upsert, routes_to_unresolved_upsert}
use aws_net_hound.Graph.Model.{
  GraphBatch, Edge, routes_to, has_sg, in_subnet, protected_by, uses_route_table, allows_ingress,
  allows_egress, has_rule, RoutesToEdge, upsert_routes_to_edges,
}
use aws_net_hound.Graph.Writer.{Driver, split_routes, run_edge_upsert, neo4j_writer}
use aws_net_hound.Graph.Writer.Routes.{
  is_some, same_bool, is_inconsistent, upsert_routes_to_accepted,
}
use aws_net_hound.Ingest.Edges.Routes.{IsRouted}
use aws_net_hound.Ingest.Pipeline.{as_routes_to}
use aws_net_hound.Ingest.Topology.{Collected, build_graph_batch}
use aws_net_hound.Ingest.Topology.Ends.{Ends, IsClosed}
use aws_net_hound.Ingest.Topology.Closed.{ends_of, build_graph_batch-IsClosed}

IsRouted-consistent :
    (vpcs : List String) (target : Option String) (resolved : Bool)
    → IsRouted vpcs target resolved
    → not (same_bool (is_some target) resolved) ≡ false
IsRouted-consistent vpcs none resolved h = rw h refl
IsRouted-consistent vpcs (some vpc_id) resolved h = rw h.0 refl

IsClosed-consistent :
    (ends : Ends) (edge : Edge)
    → IsClosed ends edge
    → (route : RoutesToEdge) → as_routes_to edge ≡ some route
    → is_inconsistent route ≡ false
IsClosed-consistent ends (routes_to e) h route same =
    ap is_inconsistent (sym (some_unique refl same))
    ∙ IsRouted-consistent ends.vpcs e.target_vpc_id e.resolved h.1
IsClosed-consistent ends (has_sg e) h route same = absurd cc
IsClosed-consistent ends (in_subnet e) h route same = absurd cc
IsClosed-consistent ends (protected_by e) h route same = absurd cc
IsClosed-consistent ends (uses_route_table e) h route same = absurd cc
IsClosed-consistent ends (allows_ingress id rule) h route same = absurd cc
IsClosed-consistent ends (allows_egress id rule) h route same = absurd cc
IsClosed-consistent ends (has_rule id rule) h route same = absurd cc

find?-none {ℓ} :
    {A : Type ℓ} (p : A → Bool) (xs : List A) → All (λ x. p x ≡ false) xs → find? p xs ≡ none
find?-none p [] h = refl
find?-none p (x ∷ xs) h = rw h.0 (find?-none p xs h.1)

abbrev pub routes_of : GraphBatch → List RoutesToEdge
routes_of batch = present (map as_routes_to batch.edges)

module _ {Store Failure Stream Row : Type 0} (graph : Driver Store Failure Stream Row) where
  -- The routes of a batch that was built are never refused as inconsistent: their upsert is the upsert
  -- of the resolved rows and then that of the unresolved ones.
  pub build_graph_batch_routes_accepted :
      (account : String) (raw : Collected) (batch : GraphBatch) (store : Store)
      → (build_graph_batch account raw []).batch ≡ ok batch
      → let rows = split_routes (routes_of batch) in
        neo4j_writer graph (upsert_routes_to_edges (routes_of batch)) store
        ≡ (run_edge_upsert graph "ROUTES_TO" routes_to_resolved_upsert rows.resolved_rows
              >> run_edge_upsert graph "ROUTES_TO" routes_to_unresolved_upsert rows.unresolved_rows)
            store
  build_graph_batch_routes_accepted account raw batch store h =
      upsert_routes_to_accepted graph (routes_of batch) store (
        find?-none is_inconsistent (routes_of batch) (
          All-present _ _ (
            All-map_intro _ as_routes_to batch.edges (
              All-map _ (IsClosed-consistent (ends_of batch)) batch.edges
                (build_graph_batch-IsClosed account raw [] batch h)))))
