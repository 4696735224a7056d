-- ===== src/Ingest/Pipeline/Calls.antt =====
-- crates/core/src/ingest/pipeline.rs: proofs about the calls of the writer that `write_batch` makes.
use aws_net_hound.Base.{◌≡◌, refl, sym, ap, ◌∙◌, List, [], ◌∷◌, ◌++◌, map, present, ok, err, Result}
use aws_net_hound.Base.Effect.{Effect, resume, resume-unit, resume-cong, for_each, ◌>>◌}
use aws_net_hound.Graph.Model.{
  GraphBatch, Edge, Call, upsert_enis, upsert_security_groups, upsert_network_acls, upsert_subnets,
  upsert_vpcs, upsert_route_tables, upsert_has_sg_edges, upsert_in_subnet_edges,
  upsert_protected_by_edges, upsert_uses_route_table_edges, upsert_routes_to_edges,
  upsert_allows_ingress_rules, upsert_allows_egress_rules, upsert_has_rules,
}
use aws_net_hound.Ingest.Pipeline.{
  as_has_sg, as_in_subnet, as_protected_by, as_uses_route_table, as_routes_to, as_ingress,
  as_egress, as_nacl, sg_batches, nacl_batches, group_by, write_batch,
}

-- What a batch asks of the writer: every kind of node first, then every kind of edge.
abbrev pub other_node_calls : GraphBatch → List Call
other_node_calls batch =
    upsert_security_groups batch.security_groups
    ∷ upsert_network_acls batch.network_acls
    ∷ upsert_subnets batch.subnets
    ∷ upsert_vpcs batch.vpcs
    ∷ upsert_route_tables batch.route_tables
    ∷ []

abbrev pub edge_calls : List Edge → List Call
edge_calls edges =
    upsert_has_sg_edges (present (map as_has_sg edges))
    ∷ upsert_in_subnet_edges (present (map as_in_subnet edges))
    ∷ upsert_protected_by_edges (present (map as_protected_by edges))
    ∷ upsert_uses_route_table_edges (present (map as_uses_route_table edges))
    ∷ upsert_routes_to_edges (present (map as_routes_to edges))
    ∷ upsert_allows_ingress_rules (sg_batches (group_by (present (map as_ingress edges))))
    ∷ upsert_allows_egress_rules (sg_batches (group_by (present (map as_egress edges))))
    ∷ upsert_has_rules (nacl_batches (group_by (present (map as_nacl edges))))
    ∷ []

abbrev pub calls_of : GraphBatch → List Call
calls_of batch = upsert_enis batch.enis ∷ (other_node_calls batch ++ edge_calls batch.edges)

module _ {Store E A : Type 0} (body : A → Effect Store E (Unit {0})) where
  -- A loop that failed: the items that went well, the one that failed, and the ones that never ran.
  pub record Failed (xs : List A) (store last : Store) (error : E) : Type 0 where
    pub done : List A
    pub failed : A
    pub left : List A
    pub middle : Store
    pub items : xs ≡ done ++ failed ∷ left
    pub went : for_each body done store ≡ (middle, ok tt)
    pub failure : body failed middle ≡ (last, err error)

  fails_first :
      (x : A) (xs : List A) (store last : Store) (error : E) (answer : Store × Result E (Unit {0}))
      → body x store ≡ answer
      → ((middle : Store)
          → for_each body xs middle ≡ (last, err error)
          → Failed xs middle last error)
      → resume answer (λ _. for_each body xs) ≡ (last, err error)
      → Failed (x ∷ xs) store last error
  fails_first x xs store last error (middle, err e) first later h = record {
    done = [];
    failed = x;
    left = xs;
    middle = store;
    items = refl;
    went = refl;
    failure = first ∙ h;
  }
  fails_first x xs store last error (second, ok t) first later h =
      let rest = later second h in
      record {
        done = x ∷ rest.done;
        failed = rest.failed;
        left = rest.left;
        middle = rest.middle;
        items = ap (λ ys. x ∷ ys) rest.items;
        went = rw first rest.went;
        failure = rest.failure;
      }

  pub for_each-eq-err :
      (xs : List A) (store last : Store) (error : E)
      → for_each body xs store ≡ (last, err error)
      → Failed xs store last error
  for_each-eq-err [] store last error h = absurd cc
  for_each-eq-err (x ∷ xs) store last error h =
      fails_first x xs store last error (body x store) refl
        (λ middle. for_each-eq-err xs middle last error) h

  -- The calls one after another, without a step behind the last.
  abbrev in_turn : A → List A → Effect Store E (Unit {0})
  in_turn x [] = body x
  in_turn x (y ∷ ys) = body x >> in_turn y ys

  in_turn-for_each :
      (x : A) (xs : List A) (store : Store) → in_turn x xs store ≡ for_each body (x ∷ xs) store
  in_turn-for_each x [] store = resume-unit (body x store)
  in_turn-for_each x (y ∷ ys) store =
      resume-cong (body x store) (λ _. in_turn y ys) (λ _. for_each body (y ∷ ys))
        (λ _. in_turn-for_each y ys)

module _ {Store WriteError : Type 0} (writer : Call → Effect Store WriteError (Unit {0})) where
  -- `write_batch` makes the calls of the batch in their order, every kind of node before every kind of
  -- edge, and stops at the first that fails.
  pub write_batch-calls_of :
      (batch : GraphBatch) (store : Store)
      → write_batch writer batch store ≡ for_each writer (calls_of batch) store
  unfolding write_batch
  write_batch-calls_of batch store =
      in_turn-for_each writer (upsert_enis batch.enis)
        (other_node_calls batch ++ edge_calls batch.edges) store

  -- A write that fails has made a prefix of the calls of the batch, none of which failed, then the one
  -- that failed, and no call after it; the store is as that call left it.
  pub write_batch-Failed :
      (batch : GraphBatch) (store last : Store) (error : WriteError)
      → write_batch writer batch store ≡ (last, err error)
      → Failed writer (calls_of batch) store last error
  write_batch-Failed batch store last error h =
      for_each-eq-err writer (calls_of batch) store last error
        (sym (write_batch-calls_of batch store) ∙ h)
