-- ===== src/Graph/Writer/Merged.antt =====
-- crates/core/src/graph/neo4j.rs: proofs about `run_edge_upsert`, whose driver reports how many rows of
-- a chunk were merged.
use aws_net_hound.Base.{
  ◌≡◌, refl, sym, ap, subst, ◌∙◌, ◌↔◌, ◌≤◌, ℕ, suc, Bool, true, Bool-cases, some, List, [], ◌∷◌,
  String, length, filter, All, All-map, Result, ok, map_err, map_err-eq-ok, ok_or, ok_or-eq-ok,
  >>=-eq-ok, inl, inr, arith,
}
use aws_net_hound.Base.Effect.{resume-eq-ok, wrap_result, wrap_result-eq-ok, pair_parts, for_each}
use aws_net_hound.Base.Every.{All-concat, All-concat_elim}
use aws_net_hound.Base.Int.{ℤ, pos}
use aws_net_hound.Graph.Bolt.{Props}
use aws_net_hound.Graph.Chunks.{chunk_rows, chunk_rows_lem, IsChunk}
use aws_net_hound.Graph.Writer.{
  Driver, driver_failure, no_summary_row, as_usize, run_edge_upsert, upsert_chunk, merge_chunk,
  read_merged, check_merged,
}

length-filter {ℓ} : {A : Type ℓ} (p : A → Bool) (xs : List A) → length (filter p xs) ≤ length xs
length-filter p [] = omega arith
length-filter p (x ∷ xs) = ground (arith, length-filter p xs)

filter-full {ℓ} :
    {A : Type ℓ} (p : A → Bool) (xs : List A)
    → length (filter p xs) ≡ length xs
    → All (λ x. p x ≡ true) xs
filter-full p [] h = tt
filter-full p (x ∷ xs) h = elim (Bool-cases (p x)) [
  | inl h1 ↦ (h1, filter-full p xs (ground (arith, h, h1)))
  | inr h0 ↦ absurd (ground (arith, h, h0, length-filter p xs))
]

filter-All {ℓ} :
    {A : Type ℓ} (p : A → Bool) (xs : List A)
    → All (λ x. p x ≡ true) xs
    → length (filter p xs) ≡ length xs
filter-All p [] h = refl
filter-All p (x ∷ xs) h = rw h.0 (ap suc (filter-All p xs h.1))

module _ {Store Failure Stream Row : Type 0} (graph : Driver Store Failure Stream Row) where
  read_merged-eq-ok :
      (edge_type : String) (stream : Stream) (merged : ℤ)
      → read_merged graph edge_type stream ≡ ok merged
      → (row : Row) × (graph.next stream ≡ ok (some row)) × (graph.get_merged row ≡ ok merged)
  read_merged-eq-ok edge_type stream merged h =
      let (answer, read, rest) = >>=-eq-ok (map_err driver_failure (graph.next stream)) _ h in
      let (row, found, last) = >>=-eq-ok (ok_or (no_summary_row edge_type) answer) _ rest in
      (
        row,
        map_err-eq-ok driver_failure _ read ∙ ap ok (ok_or-eq-ok _ answer found),
        map_err-eq-ok driver_failure _ last,
      )

  check_merged-eq-ok :
      (edge_type : String) (sent : ℕ) (merged : ℤ)
      → check_merged graph edge_type sent merged ≡ ok tt
      → as_usize merged ≡ sent
  check_merged-eq-ok edge_type sent merged h = ground (arith, h)

  check_merged-ok :
      (edge_type : String) (sent : ℕ) (merged : ℤ)
      → as_usize merged ≡ sent
      → check_merged graph edge_type sent merged ≡ ok tt
  check_merged-ok edge_type sent merged h = ground (arith, h)

  module _ (resolves : String → Store → Props → Bool)
      (counts : (cypher : String) (chunk : List Props) (store later : Store) (stream : Stream)
          (row : Row) (merged : ℤ)
        → graph.execute cypher chunk store ≡ (later, ok stream)
        → graph.next stream ≡ ok (some row)
        → graph.get_merged row ≡ ok merged
        → merged ≡ pos (length (filter (resolves cypher store) chunk)))
      (keeps : (cypher : String) (chunk : List Props) (store later : Store)
          (answer : Result Failure Stream)
        → graph.execute cypher chunk store ≡ (later, answer)
        → (row : Props) → resolves cypher later row ≡ resolves cypher store row) where
    -- The rows that bind, before a call and after it.
    abbrev pub AllResolve : String → Store → List Props → Type 0
    AllResolve cypher store rows = All (λ row. resolves cypher store row ≡ true) rows

    upsert_chunk-resolves :
        (edge_type cypher : String) (chunk : List Props) (store later : Store)
        → length chunk ≤ 1000
        → upsert_chunk graph edge_type cypher chunk store ≡ (later, ok tt)
        → AllResolve cypher store chunk
          × ((row : Props) → resolves cypher later row ≡ resolves cypher store row)
    upsert_chunk-resolves edge_type cypher chunk store later small h =
        let (third, merged, earlier, check) =
          resume-eq-ok (merge_chunk graph edge_type cypher chunk store) _ h in
        let (second, stream, wrapped, read) =
          resume-eq-ok (wrap_result driver_failure (graph.execute cypher chunk store)) _ earlier in
        let execute = wrap_result-eq-ok driver_failure (graph.execute cypher chunk store) wrapped in
        let (unread, answer) = pair_parts read in
        let (unchecked, verdict) = pair_parts check in
        let (row, next, get) = read_merged-eq-ok edge_type stream merged answer in
        let same = unread ∙ unchecked in
        let as_sent = check_merged-eq-ok edge_type (length chunk) merged verdict in
        let reported =
          ap as_usize (counts cypher chunk store second stream row merged execute next get) in
        (
          filter-full (resolves cypher store) chunk (
              omega (arith, reported, as_sent, small, length-filter (resolves cypher store) chunk)),
          subst
              (λ (after : Store).
                (row : Props) → resolves cypher after row ≡ resolves cypher store row)
              same (keeps cypher chunk store second (ok stream) execute),
        )

    chunks-resolve :
        (edge_type cypher : String) (chunks : List (List Props)) (store last : Store)
        → All (IsChunk 1000) chunks
        → for_each (upsert_chunk graph edge_type cypher) chunks store ≡ (last, ok tt)
        → All (AllResolve cypher store) chunks
    chunks-resolve edge_type cypher [] store last h e = tt
    chunks-resolve edge_type cypher (chunk ∷ chunks) store last h e =
        let (later, _, first, rest) =
          resume-eq-ok (upsert_chunk graph edge_type cypher chunk store) _ e in
        let (bound, same) = upsert_chunk-resolves edge_type cypher chunk store later h.0.1 first in
        (
          bound,
          All-map _ (λ each. All-map _ (λ row k. sym (same row) ∙ k) each) chunks
              (chunks-resolve edge_type cypher chunks later last h.1 rest),
        )

    run_edge_upsert-resolves :
        (edge_type cypher : String) (rows : List Props) (store last : Store)
        → run_edge_upsert graph edge_type cypher rows store ≡ (last, ok tt)
        → AllResolve cypher store rows
    unfolding run_edge_upsert
    run_edge_upsert-resolves edge_type cypher rows store last e =
        let (whole, each) = chunk_rows_lem rows 1000 (omega arith) in
        subst (AllResolve cypher store) whole (
          All-concat _ (chunk_rows rows 1000)
            (chunks-resolve edge_type cypher (chunk_rows rows 1000) store last each e))

    module _
        (answers : (cypher : String) (chunk : List Props) (store : Store)
          → (later : Store) × (stream : Stream) × (row : Row) × (merged : ℤ) × (graph.execute cypher
                chunk store
              ≡ (later, ok stream))
            × (graph.next stream ≡ ok (some row))
            × (graph.get_merged row ≡ ok merged)) where
      upsert_chunk-succeeds :
          (edge_type cypher : String) (chunk : List Props) (store : Store)
          → length chunk ≤ 1000
          → AllResolve cypher store chunk
          → (later : Store) × (upsert_chunk graph edge_type cypher chunk store ≡ (later, ok tt))
            × ((row : Props) → resolves cypher later row ≡ resolves cypher store row)
      upsert_chunk-succeeds edge_type cypher chunk store small h =
          let (later, stream, row, merged, execute, next, get) = answers cypher chunk store in
          let reported =
            ap as_usize (counts cypher chunk store later stream row merged execute next get) in
          let as_sent : as_usize merged ≡ length chunk =
            omega (arith, reported, small, filter-All (resolves cypher store) chunk h) in
          (
            later,
            rw (execute, next, get, check_merged-ok edge_type (length chunk) merged as_sent) refl,
            keeps cypher chunk store later (ok stream) execute,
          )

      chunks-succeed :
          (edge_type cypher : String) (chunks : List (List Props)) (store : Store)
          → All (IsChunk 1000) chunks
          → All (AllResolve cypher store) chunks
          → (last : Store) × (for_each (upsert_chunk graph edge_type cypher) chunks store
              ≡ (last, ok tt))
      chunks-succeed edge_type cypher [] store h k = (store, refl)
      chunks-succeed edge_type cypher (chunk ∷ chunks) store h k =
          let (later, first, same) = upsert_chunk-succeeds edge_type cypher chunk store h.0.1 k.0 in
          let (last, rest) =
            chunks-succeed edge_type cypher chunks later h.1
              (All-map _ (λ each. All-map _ (λ row bound. same row ∙ bound) each) chunks k.1) in
          (last, rw first rest)

      -- Where the driver answers and reports how many rows of a statement bind, and where a statement
      -- changes none of that, an upsert of edges succeeds exactly when the ends of every row exist.
      pub run_edge_upsert_iff :
          (edge_type cypher : String) (rows : List Props) (store : Store)
          → ((last : Store) × (run_edge_upsert graph edge_type cypher rows store ≡ (last, ok tt)))
            ↔ AllResolve cypher store rows
      unfolding run_edge_upsert
      run_edge_upsert_iff edge_type cypher rows store =
          let (whole, each) = chunk_rows_lem rows 1000 (omega arith) in
          (
            (λ r. run_edge_upsert-resolves edge_type cypher rows store r.0 r.1),
            (λ h. chunks-succeed edge_type cypher (chunk_rows rows 1000) store each (
                All-concat_elim _ (chunk_rows rows 1000)
                  (subst (AllResolve cypher store) (sym whole) h))),
          )
