-- ===== src/Graph/Writer/Routes.antt =====
-- crates/core/src/graph/neo4j.rs: proofs about `upsert_routes_to_edges` and the routes whose fields
-- disagree.
use mathlib.Core.List.{foldl}
use aws_net_hound.Base.{
  ◌≡◌, refl, ◌∙◌, ap, not, Bool, true, false, Bool-cases, Option, none, some, Option-cases, List,
  [], ◌∷◌, find?, err, inl, inr, if◌then◌else◌,
}
use aws_net_hound.Base.Effect.{◌>>◌, lift}
use aws_net_hound.Graph.Cypher.{routes_to_resolved_upsert, routes_to_unresolved_upsert}
use aws_net_hound.Graph.Model.{RoutesToEdge, upsert_routes_to_edges}
use aws_net_hound.Graph.Writer.{
  Driver, Write, inconsistent_route, RouteRows, get_or_insert, split_route, split_routes,
  run_edge_upsert, neo4j_writer,
}

abbrev pub is_some {ℓ} : {A : Type ℓ} → Option A → Bool
is_some none = false
is_some (some a) = true

abbrev pub same_bool : Bool → Bool → Bool
same_bool true b = b
same_bool false b = not b

-- The target of a route is there exactly when the route is resolved.
abbrev pub is_consistent : RoutesToEdge → Bool
is_consistent edge = same_bool (is_some edge.target_vpc_id) edge.resolved

abbrev pub is_inconsistent : RoutesToEdge → Bool
is_inconsistent edge = not (is_consistent edge)

abbrev or_else {ℓ} : {A : Type ℓ} → Option A → Option A → Option A
or_else none o = o
or_else (some a) o = some a

or_else-none {ℓ} : {A : Type ℓ} (o : Option A) → o ≡ or_else o none
or_else-none none = refl
or_else-none (some a) = refl

split_route-inconsistency :
    (rows : RouteRows) (edge : RoutesToEdge)
    → (split_route rows edge).inconsistency
      ≡ (if is_inconsistent edge then get_or_insert rows.inconsistency edge else rows.inconsistency)
unfolding split_route
split_route-inconsistency rows edge = elim (Option-cases edge.target_vpc_id) [
  | inl missing ↦ elim (Bool-cases edge.resolved) [
    | inl resolved ↦ rw (missing, resolved) refl
    | inr unresolved ↦ rw (missing, unresolved) refl
  ]
  | inr (vpc_id, e) ↦ elim (Bool-cases edge.resolved) [
    | inl resolved ↦ rw (e, resolved) refl
    | inr unresolved ↦ rw (e, unresolved) refl
  ]
]

or_insert_else :
    (b : Bool) (o : Option RoutesToEdge) (edge : RoutesToEdge) (rest : Option RoutesToEdge)
    → or_else (if b then get_or_insert o edge else o) rest
      ≡ or_else o (if b then some edge else rest)
or_insert_else true none edge rest = refl
or_insert_else true (some a) edge rest = refl
or_insert_else false o edge rest = refl

fold-inconsistency :
    (edges : List RoutesToEdge) (rows : RouteRows)
    → (foldl split_route rows edges).inconsistency
      ≡ or_else rows.inconsistency (find? is_inconsistent edges)
fold-inconsistency [] rows = or_else-none rows.inconsistency
fold-inconsistency (edge ∷ edges) rows =
    fold-inconsistency edges (split_route rows edge)
    ∙ ap (λ o. or_else o (find? is_inconsistent edges)) (split_route-inconsistency rows edge)
    ∙ or_insert_else (is_inconsistent edge) rows.inconsistency edge (find? is_inconsistent edges)

pub split_routes-inconsistency :
    (edges : List RoutesToEdge) → (split_routes edges).inconsistency ≡ find? is_inconsistent edges
unfolding split_routes
split_routes-inconsistency edges = fold-inconsistency edges _

module _ {Store Failure Stream Row : Type 0} (graph : Driver Store Failure Stream Row) where
  -- What is done with the rows, by the route that disagrees.
  abbrev chosen : List RoutesToEdge → Option RoutesToEdge → Write graph
  chosen edges o = elim o [
    | some edge ↦ lift (err (inconsistent_route edge))
    | none ↦
        run_edge_upsert graph "ROUTES_TO" routes_to_resolved_upsert
          (split_routes edges).resolved_rows
        >> run_edge_upsert graph "ROUTES_TO" routes_to_unresolved_upsert
            (split_routes edges).unresolved_rows
  ]

  -- Routes of which one has a target but is not resolved, or has none but is resolved, are refused with
  -- the first such route, before anything is written.
  pub upsert_routes_to_refused :
      (edges : List RoutesToEdge) (edge : RoutesToEdge) (store : Store)
      → find? is_inconsistent edges ≡ some edge
      → neo4j_writer graph (upsert_routes_to_edges edges) store
        ≡ (store, err (inconsistent_route edge))
  unfolding neo4j_writer
  upsert_routes_to_refused edges edge store h =
      ap (λ o. chosen edges o store) (split_routes-inconsistency edges ∙ h)

  pub upsert_routes_to_accepted :
      (edges : List RoutesToEdge) (store : Store)
      → find? is_inconsistent edges ≡ none
      → let rows = split_routes edges in
        neo4j_writer graph (upsert_routes_to_edges edges) store
        ≡ (run_edge_upsert graph "ROUTES_TO" routes_to_resolved_upsert rows.resolved_rows
              >> run_edge_upsert graph "ROUTES_TO" routes_to_unresolved_upsert rows.unresolved_rows)
            store
  unfolding neo4j_writer
  upsert_routes_to_accepted edges store h =
      ap (λ o. chosen edges o store) (split_routes-inconsistency edges ∙ h)
