-- ===== src/Migrations/Kept.antt =====
-- crates/core/src/migrations.rs: proofs about what each call of `apply_version` leaves recorded.
use aws_net_hound.Base.{
  ◌≡◌, refl, sym, ap, ap₂, subst, ◌∙◌, ◌⊎◌, inl, inr, List, [], ◌∷◌, ◌++◌, ℕ, suc, ok, err, Result,
}
use aws_net_hound.Base.Effect.{resume-eq-ok, resume-cases, resume-keeps, pair_parts, wrap_result}
use aws_net_hound.Migrations.Types.{
  Connection, MigrationError, start_transaction, commit, statement_failed, record_version,
  statement, merge_version,
}
use aws_net_hound.Migrations.Ledger.{Ledger}
use aws_net_hound.Migrations.{
  start, commit_all, merge_in, or_rollback, apply_statements, write_version,
}

module _ {Store Txn Row Failure Mismatch : Type 0}
    (graph : Connection Store Txn Row Failure Mismatch) where
  pub or_rollback-eq-ok :
      (txn : Txn) (wrap : Failure → MigrationError Failure Mismatch)
      (call : Store × Result Failure (Unit {0})) (later : Store)
      → or_rollback graph txn wrap call ≡ (later, ok tt)
      → call.0 ≡ later
  or_rollback-eq-ok txn wrap (first, ok t) later h = (pair_parts h).0
  or_rollback-eq-ok txn wrap (first, err f) later h = absurd cc

  pub or_rollback-ok :
      (txn : Txn) (wrap : Failure → MigrationError Failure Mismatch)
      (call : Store × Result Failure (Unit {0})) (later : Store)
      → or_rollback graph txn wrap call ≡ (later, ok tt)
      → call ≡ (later, ok tt)
  or_rollback-ok txn wrap (first, ok t) later h = ap (λ s. (s, ok tt)) (pair_parts h).0
  or_rollback-ok txn wrap (first, err f) later h = absurd cc

  pub wrap_result-store :
      {A E F : Type 0} (f : E → F) (r : Store × Result E A) → (wrap_result f r).0 ≡ r.0
  wrap_result-store f (store, ok a) = refl
  wrap_result-store f (store, err e) = refl

  module _ (ledger : Ledger graph) where
    open ledger use {versions, held, started, ran, merged, committed, uncommitted, undone}

    or_rollback-versions :
        (txn : Txn) (wrap : Failure → MigrationError Failure Mismatch)
        (call : Store × Result Failure (Unit {0}))
        → versions (or_rollback graph txn wrap call).0 ≡ versions call.0
    or_rollback-versions txn wrap (first, ok t) = refl
    or_rollback-versions txn wrap (first, err f) = undone txn first

    -- The statements of a version record nothing, however far they come.
    pub apply_statements-versions :
        (txn : Txn) (version index : ℕ) (cyphers : List (List ℕ)) (store : Store)
        → versions (apply_statements graph txn version index cyphers store).0 ≡ versions store
    unfolding apply_statements
    apply_statements-versions txn version index [] store = refl
    apply_statements-versions txn version index (cypher ∷ cyphers) store =
        resume-keeps versions _ _
          (or_rollback-versions txn _ (graph.run_in txn (statement cypher) store)
            ∙ (ran txn cypher store).0)
          (λ _ later. apply_statements-versions txn version (suc index) cyphers later)

    -- Nor do they hold a version back for the commit.
    pub apply_statements-held :
        (txn : Txn) (version index : ℕ) (cyphers : List (List ℕ)) (store later : Store)
        → apply_statements graph txn version index cyphers store ≡ (later, ok tt)
        → held later ≡ held store
    unfolding apply_statements
    apply_statements-held txn version index [] store later h = ap held (sym (pair_parts h).0)
    apply_statements-held txn version index (cypher ∷ cyphers) store later h =
        let call = graph.run_in txn (statement cypher) store in
        let (middle, _, first, rest) =
          resume-eq-ok (or_rollback graph txn (statement_failed version index) call) _ h in
        apply_statements-held txn version (suc index) cyphers middle later rest
        ∙ ap held (sym (or_rollback-eq-ok txn (statement_failed version index) call middle first))
        ∙ (ran txn cypher store).1

    -- A failed commit of the statements records nothing, whatever became of it.
    pub commit_all-versions :
        (txn : Txn) (version : ℕ) (store : Store)
        → held store ≡ []
        → versions (commit_all graph txn version store).0 ≡ versions store
    commit_all-versions txn version store empty =
        let moved =
          ap versions (wrap_result-store (λ f. commit version f) (graph.commit_txn txn store)) in
        elim (uncommitted txn store) [
          | inl none ↦ moved ∙ none
          | inr all ↦ moved ∙ all ∙ ap (λ l. l ++ versions store) empty
        ]

    -- What a call in a transaction leaves recorded: as much as before, or the version as well.
    abbrev pub AtMost : ℕ → List ℕ → Store → Type 0
    AtMost version before after = (versions after ≡ before) ⊎ (versions after ≡ version ∷ before)

    commit_all-AtMost :
        (txn : Txn) (version : ℕ) (before : List ℕ) (store : Store)
        → versions store ≡ before
        → ((held store ≡ []) ⊎ (held store ≡ version ∷ []))
        → AtMost version before (commit_all graph txn version store).0
    commit_all-AtMost txn version before store same (inl found) =
        inl (commit_all-versions txn version store found ∙ same)
    commit_all-AtMost txn version before store same (inr waits) =
        let moved =
          ap versions (wrap_result-store (λ f. commit version f) (graph.commit_txn txn store)) in
        elim (uncommitted txn store) [
          | inl none ↦ inl (moved ∙ none ∙ same)
          | inr all ↦ inr (moved ∙ all ∙ ap₂ (λ a b. a ++ b) waits same)
        ]

    -- What a merge in a fresh transaction holds back.
    pub merged_waits :
        (txn : Txn) (version : ℕ) (store later : Store)
        → held store ≡ []
        → (graph.run_in txn (merge_version version) store).0 ≡ later
        → (held later ≡ []) ⊎ (held later ≡ version ∷ [])
    merged_waits txn version store later empty here = elim (merged txn version store).1 [
      | inl found ↦ inl (ap held (sym here) ∙ found ∙ empty)
      | inr waits ↦ inr (ap held (sym here) ∙ waits ∙ ap (λ l. version ∷ l) empty)
    ]

    merge_in-AtMost :
        (txn : Txn) (version : ℕ) (store : Store)
        → held store ≡ []
        → AtMost version (versions store) (merge_in graph txn version store).0
    merge_in-AtMost txn version store empty =
        let call = graph.run_in txn (merge_version version) store in
        let (same, _) = merged txn version store in
        let first = or_rollback graph txn (λ f. record_version version f) call in
        let kept = or_rollback-versions txn (λ f. record_version version f) call ∙ same in
        elim (resume-cases first (λ _. commit_all graph txn version)) [
          | inl (later, e, failed, whole) ↦ inl (ap (λ p. versions p.0) (whole ∙ sym failed) ∙ kept)
          | inr (later, t, went, whole) ↦
              let here = or_rollback-eq-ok txn (λ f. record_version version f) call later went in
              subst
                (λ (p : Store × Result (MigrationError Failure Mismatch) (Unit {0})).
                  AtMost version (versions store) p.0)
                (sym whole)
                (commit_all-AtMost txn version (versions store) later
                  (ap versions (sym here) ∙ same) (merged_waits txn version store later empty here))
        ]

    -- The second transaction records the version, or nothing.
    pub write_version-AtMost :
        (version : ℕ) (store : Store)
        → AtMost version (versions store) (write_version graph version store).0
    unfolding write_version
    write_version-AtMost version store =
        let (same, empty) = started store in
        let first = start graph version store in
        let begun = wrap_result-store (λ f. start_transaction version f) (graph.start_txn store) in
        elim (resume-cases first (λ txn. merge_in graph txn version)) [
          | inl (later, e, failed, whole) ↦ inl (
              ap (λ p. versions p.0) whole
              ∙ ap (λ (p : Store × Result (MigrationError Failure Mismatch) Txn). versions p.0)
                  (sym failed)
              ∙ ap versions begun
              ∙ same)
          | inr (later, txn, went, whole) ↦
              let here = sym begun ∙ ap (λ p. p.0) went in
              subst
                (λ (p : Store × Result (MigrationError Failure Mismatch) (Unit {0})).
                  AtMost version (versions store) p.0)
                (sym whole)
                (subst (λ before. AtMost version before (merge_in graph txn version later).0)
                  (ap versions (sym here) ∙ same)
                  (merge_in-AtMost txn version later (ap held (sym here) ∙ empty)))
        ]
