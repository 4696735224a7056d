-- ===== src/Migrations/Twice.antt =====
-- crates/core/src/migrations.rs: proofs about a run on a database that a run has migrated.
use aws_net_hound.Base.{
  inl, inr, ◌≡◌, refl, sym, ap, subst, ◌∙◌, ◌<◌, ◌%◌, true, ℕ, List, [], ◌∷◌, String, All, All-map,
  ok, Result, arith,
}
use aws_net_hound.Base.Effect.{resume-eq-ok, pair_parts, wrap_result-eq-ok}
use aws_net_hound.Base.Traverse.{ok_unique}
use aws_net_hound.Migrations.Types.{Connection, MigrationSummary, bootstrap}
use aws_net_hound.Migrations.Files.{Migration, ordered_migrations}
use aws_net_hound.Migrations.Files.Order.{ordered_migrations-lt}
use aws_net_hound.Migrations.Ledger.{Ledger}
use aws_net_hound.Migrations.Summary.{Round, skip, apply, run-Ran, migrate_one-Round}
use aws_net_hound.Migrations.{
  holds, bootstrap_constraint, migrate_one, migrate_all, run, schema_migration_constraint,
}
use aws_net_hound.Migrations.Adds.{
  wrapped, holds-wrapped, holds_tail, wrapped-SameMembers, apply_version-Adds,
  read_applied-versions,
}

module _ {Store Txn Row Failure Mismatch : Type 0}
    (graph : Connection Store Txn Row Failure Mismatch) where
  module _ (ledger : Ledger graph) where
    open ledger use {versions, plain}

    bootstrap-versions :
        (store last : Store)
        → bootstrap_constraint graph store ≡ (last, ok tt)
        → versions last ≡ versions store
    unfolding bootstrap_constraint
    bootstrap-versions store last h =
        let call = graph.run schema_migration_constraint store in
        ap (λ (p : Store × Result Failure (Unit {0})). versions p.0)
          (sym (wrap_result-eq-ok bootstrap call h))
        ∙ plain schema_migration_constraint store

    Round-idle :
        {already : List ℕ} {m : Migration} {summary out : MigrationSummary} {store last : Store}
        → Round graph already m summary store last out
        → holds already m.version ≡ true
        → (store ≡ last) × (out.applied ≡ summary.applied)
    Round-idle (skip old same told) h = (same, ap (λ (s : MigrationSummary). s.applied) (sym told))
    Round-idle (apply new applied told) h = absurd (cc (sym h ∙ new))

    -- The versions as a run reads them.
    abbrev pub seen : Store → List ℕ
    seen store = wrapped (versions store)

    abbrev pub IsRecorded : Store → ℕ → Type 0
    IsRecorded store version = holds (seen store) version ≡ true

    Round-IsRecorded :
        {already : List ℕ} {m : Migration} {summary out : MigrationSummary} {store last : Store}
        → Round graph already m summary store last out
        → m.version < 4294967296
        → (holds already m.version ≡ true → IsRecorded store m.version)
        → IsRecorded last m.version × ((v : ℕ) → IsRecorded store v → IsRecorded last v)
    Round-IsRecorded {m = m} (skip old same told) small h = (
      subst (λ (s : Store). IsRecorded s m.version) same (h old),
      λ v k. subst (λ (s : Store). IsRecorded s v) same k,
    )
    Round-IsRecorded {m = m} {store = store} {last = last} (apply new applied told) small h =
        let (adds, there) =
          apply_version-Adds graph ledger m.version m.content store last applied in
        let fits : m.version % 4294967296 ≡ m.version = omega (arith, small) in
        (
          subst (λ w. holds (seen last) w ≡ true) fits
              (holds-wrapped (versions last) m.version there),
          λ v k. elim adds [
            | inl none ↦ subst (λ vs. holds (wrapped vs) v ≡ true) (sym none) k
            | inr one ↦
                subst (λ vs. holds (wrapped vs) v ≡ true) (sym one)
                  (holds_tail (m.version % 4294967296) (seen store) v k)
          ],
        )

    migrate_all-IsRecorded :
        (already : List ℕ) (ms : List Migration) (summary : MigrationSummary) (store last : Store)
        (out : MigrationSummary)
        → migrate_all graph already ms summary store ≡ (last, ok out)
        → All (λ (m : Migration). m.version < 4294967296) ms
        → ((v : ℕ) → holds already v ≡ true → IsRecorded store v)
        → All (λ (m : Migration). IsRecorded last m.version) ms
          × ((v : ℕ) → IsRecorded store v → IsRecorded last v)
    unfolding migrate_all
    migrate_all-IsRecorded already [] summary store last out h small known =
        (tt, λ v k. subst (λ (s : Store). IsRecorded s v) (pair_parts h).0 k)
    migrate_all-IsRecorded already (m ∷ ms) summary store last out h small known =
        let (middle, next, first, rest) =
          resume-eq-ok (migrate_one graph already m summary store) _ h in
        let (here, keep) =
          Round-IsRecorded (migrate_one-Round graph already m summary store middle next first)
            small.0 (known m.version) in
        let (there, keep_on) =
          migrate_all-IsRecorded already ms next middle last out rest small.1
            (λ v k. keep v (known v k)) in
        ((keep_on m.version here, there), λ v k. keep_on v (keep v k))

    -- After a run that succeeds, every version of the files is recorded.
    run-IsRecorded :
        (files : List (String × String)) (store last : Store) (out : MigrationSummary)
        → run graph files store ≡ (last, ok out)
        → (ms : List Migration)
        → ordered_migrations {Failure = Failure} {Mismatch = Mismatch} files ≡ ok ms
        → All (λ (m : Migration). IsRecorded last m.version) ms
    run-IsRecorded files store last out h ms ordered =
        let r = run-Ran graph files store last out h in
        let (same, vs, members, read) =
          read_applied-versions graph ledger r.bootstrapped r.read r.already r.recorded in
        subst (All (λ (m : Migration). IsRecorded last m.version)) (ok_unique r.order ordered) (
          (migrate_all-IsRecorded r.already r.migrations (record { applied = []; skipped = [] })
            r.read last out r.rounds
            (ordered_migrations-lt {Failure = Failure} {Mismatch = Mismatch} files r.migrations
              r.order)
            (λ v k.
              subst (λ us. holds (wrapped us) v ≡ true) (sym same)
                (wrapped-SameMembers vs (versions r.bootstrapped) v members
                  (subst (λ us. holds us v ≡ true) read k)))).0)

    -- Where all is recorded, the rounds do nothing.
    migrate_all-idle :
        (already : List ℕ) (ms : List Migration) (summary : MigrationSummary) (store last : Store)
        (out : MigrationSummary)
        → migrate_all graph already ms summary store ≡ (last, ok out)
        → All (λ (m : Migration). holds already m.version ≡ true) ms
        → (store ≡ last) × (out.applied ≡ summary.applied)
    unfolding migrate_all
    migrate_all-idle already [] summary store last out h known =
        let (same, told) = pair_parts h in
        (same, ap (λ (s : MigrationSummary). s.applied) (sym (ok_unique refl told)))
    migrate_all-idle already (m ∷ ms) summary store last out h known =
        let (middle, next, first, rest) =
          resume-eq-ok (migrate_one graph already m summary store) _ h in
        let (stay, left) =
          Round-idle (migrate_one-Round graph already m summary store middle next first) known.0 in
        let (same, told) = migrate_all-idle already ms next middle last out rest known.1 in
        (stay ∙ same, told ∙ left)

    -- Over a driver that keeps the laws of `Ledger`: a run that succeeds right after one that succeeded
    -- on the same files applies no version, and leaves the recorded versions as they are.
    pub run_twice :
        (files : List (String × String)) (store between last : Store)
        (first second : MigrationSummary)
        → run graph files store ≡ (between, ok first)
        → run graph files between ≡ (last, ok second)
        → (second.applied ≡ []) × (versions last ≡ versions between)
    run_twice files store between last first second h k =
        let r = run-Ran graph files between last second k in
        let done = run-IsRecorded files store between first h r.migrations r.order in
        let (same, vs, members, read) =
          read_applied-versions graph ledger r.bootstrapped r.read r.already r.recorded in
        let set_up = bootstrap-versions between r.bootstrapped r.constraint in
        let (stay, nothing) =
          migrate_all-idle r.already r.migrations (record { applied = []; skipped = [] }) r.read
            last second r.rounds
            (All-map _
              (λ m k.
                subst (λ us. holds us m.version ≡ true) (sym read)
                  (wrapped-SameMembers (versions r.bootstrapped) vs m.version (λ v. sym (members v))
                    (subst (λ us. holds (wrapped us) m.version ≡ true) (sym set_up) k)))
              r.migrations done) in
        (nothing, ap versions (sym stay) ∙ same ∙ set_up)
