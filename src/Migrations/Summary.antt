-- ===== src/Migrations/Summary.antt =====
-- crates/core/src/migrations.rs: proofs about the summary of `run`.
use aws_net_hound.Base.{
  ◌≡◌, refl, sym, ap, ap₂, subst, ◌∙◌, not, Bool, true, false, List, [], ◌∷◌, ◌++◌, String, ℕ, ok,
  filter, map, if◌then◌else◌,
}
use mathlib.Core.List.{append-nil, append_assoc}
use aws_net_hound.Base.Effect.{resume-eq-ok, pair_parts, lift, ◌>>>◌}
use aws_net_hound.Base.Traverse.{ok_unique}
use aws_net_hound.Migrations.Types.{MigrationSummary, Connection}
use aws_net_hound.Migrations.Files.{Migration, ordered_migrations}
use aws_net_hound.Migrations.Files.Names.{IsOrdered, ordered_migrations-IsOrdered}
use aws_net_hound.Migrations.{
  holds, apply_version, migrate_one, migrate_all, read_applied, bootstrap_constraint, run,
}

abbrev pub versions_of : List Migration → List ℕ
versions_of ms = map (λ (m : Migration). m.version) ms

-- What a run adds to a summary: the versions that are pending, and those that are recorded.
abbrev pub extended : List ℕ → List Migration → MigrationSummary → MigrationSummary
extended already ms summary = record {
  applied = summary.applied ++ filter (λ v. not (holds already v)) (versions_of ms);
  skipped = summary.skipped ++ filter (holds already) (versions_of ms);
}

module _ {Store Txn Row Failure Mismatch : Type 0}
    (graph : Connection Store Txn Row Failure Mismatch) where
  -- A round that went well: the version was recorded already, or it has been applied.
  pub data Round (already : List ℕ) (m : Migration) (summary : MigrationSummary)
      (store last : Store) (out : MigrationSummary) : Type 0 where
    skip :
        holds already m.version ≡ true
        → store ≡ last
        → record summary { skipped = summary.skipped ++ m.version ∷ [] } ≡ out
        → Round already m summary store last out
    apply :
        holds already m.version ≡ false
        → apply_version graph m.version m.content store ≡ (last, ok tt)
        → record summary { applied = summary.applied ++ m.version ∷ [] } ≡ out
        → Round already m summary store last out

  round_of :
      (already : List ℕ) (m : Migration) (summary : MigrationSummary) (store last : Store)
      (out : MigrationSummary) (old : Bool)
      → holds already m.version ≡ old
      → (if old
            then lift (ok (record summary { skipped = summary.skipped ++ m.version ∷ [] }))
            else (apply_version graph m.version m.content >>> λ _.
                lift (ok (record summary { applied = summary.applied ++ m.version ∷ [] }))))
          store
        ≡ (last, ok out)
      → Round already m summary store last out
  round_of already m summary store last out true e h =
      let (same, answer) = pair_parts h in skip e same (ok_unique refl answer)
  round_of already m summary store last out false e h =
      let (middle, _, applied, told) =
        resume-eq-ok (apply_version graph m.version m.content store) _ h in
      let (same, answer) = pair_parts told in
      apply e
        (subst (λ (s : Store). apply_version graph m.version m.content store ≡ (s, ok tt)) same
          applied)
        (ok_unique refl answer)

  pub migrate_one-Round :
      (already : List ℕ) (m : Migration) (summary : MigrationSummary) (store last : Store)
      (out : MigrationSummary)
      → migrate_one graph already m summary store ≡ (last, ok out)
      → Round already m summary store last out
  unfolding migrate_one
  migrate_one-Round already m summary store last out h =
      round_of already m summary store last out (holds already m.version) refl h

  Round-extended :
      {already : List ℕ} {m : Migration} {summary : MigrationSummary} {store last : Store}
      {out : MigrationSummary} (ms : List Migration)
      → Round already m summary store last out
      → extended already ms out ≡ extended already (m ∷ ms) summary
  Round-extended {already} {m} {summary} ms (skip old same told) =
      subst (λ (o : MigrationSummary). extended already ms o ≡ extended already (m ∷ ms) summary)
        told
        (rw old (
          ap
            (λ s. record {
              applied = summary.applied ++ filter (λ v. not (holds already v)) (versions_of ms);
              skipped = s;
            })
            (append_assoc summary.skipped (m.version ∷ [])
              (filter (holds already) (versions_of ms)))))
  Round-extended {already} {m} {summary} ms (apply new applied told) =
      subst (λ (o : MigrationSummary). extended already ms o ≡ extended already (m ∷ ms) summary)
        told
        (rw new (
          ap
            (λ s. record {
              applied = s;
              skipped = summary.skipped ++ filter (holds already) (versions_of ms);
            })
            (append_assoc summary.applied (m.version ∷ [])
              (filter (λ v. not (holds already v)) (versions_of ms)))))

  pub migrate_all-extended :
      (already : List ℕ) (ms : List Migration) (summary : MigrationSummary) (store last : Store)
      (out : MigrationSummary)
      → migrate_all graph already ms summary store ≡ (last, ok out)
      → out ≡ extended already ms summary
  unfolding migrate_all
  migrate_all-extended already [] summary store last out h =
      let (same, answer) = pair_parts h in
      sym (ok_unique refl answer)
      ∙ ap₂ (λ a s. record { applied = a; skipped = s }) (sym (append-nil summary.applied))
          (sym (append-nil summary.skipped))
  migrate_all-extended already (m ∷ ms) summary store last out h =
      let (middle, next, first, rest) =
        resume-eq-ok (migrate_one graph already m summary store) _ h in
      migrate_all-extended already ms next middle last out rest
      ∙ Round-extended ms (migrate_one-Round already m summary store middle next first)

  -- A run that succeeds has put the constraint up, read the recorded versions and ordered the files;
  -- it went through the files in that order from there on.
  pub record Ran (files : List (String × String)) (store last : Store) (out : MigrationSummary)
      : Type 0 where
    pub bootstrapped : Store
    pub read : Store
    pub already : List ℕ
    pub migrations : List Migration
    pub constraint : bootstrap_constraint graph store ≡ (bootstrapped, ok tt)
    pub recorded : read_applied graph bootstrapped ≡ (read, ok already)
    pub order : ordered_migrations {Failure = Failure} {Mismatch = Mismatch} files ≡ ok migrations
    pub rounds :
        migrate_all graph already migrations (record { applied = []; skipped = [] }) read
        ≡ (last, ok out)

  pub run-Ran :
      (files : List (String × String)) (store last : Store) (out : MigrationSummary)
      → run graph files store ≡ (last, ok out)
      → Ran files store last out
  unfolding run
  run-Ran files store last out h =
      let (bootstrapped, _, constraint, more) =
        resume-eq-ok (bootstrap_constraint graph store) _ h in
      let (read, already, recorded, rest) = resume-eq-ok (read_applied graph bootstrapped) _ more in
      let (same, migrations, ordered, rounds) =
        resume-eq-ok
          (lift (ordered_migrations {Failure = Failure} {Mismatch = Mismatch} files) read) _ rest in
      let (e, order) = pair_parts ordered in
      record {
        bootstrapped = bootstrapped;
        read = read;
        already = already;
        migrations = migrations;
        constraint = constraint;
        recorded = recorded;
        order = order;
        rounds =
            subst
              (λ (s : Store).
                migrate_all graph already migrations (record { applied = []; skipped = [] }) s
                ≡ (last, ok out))
              (sym e) rounds;
      }

  -- What the summary says of the files, by what the database answered once the constraint was up.
  pub record Reports (files : List (String × String)) (store : Store) (out : MigrationSummary)
      : Type 0 where
    pub asked : Store
    pub read : Store
    pub already : List ℕ
    pub migrations : List Migration
    pub constraint : bootstrap_constraint graph store ≡ (asked, ok tt)
    pub recorded : read_applied graph asked ≡ (read, ok already)
    pub ordering : IsOrdered files migrations
    pub applied : out.applied ≡ filter (λ v. not (holds already v)) (versions_of migrations)
    pub skipped : out.skipped ≡ filter (holds already) (versions_of migrations)

  -- A run that succeeds has put the constraint up and then read which versions are recorded. Its summary
  -- goes through all the files, none left out and none added, in ascending order of the versions that
  -- their names give, and lists as applied the versions that were not recorded, and as skipped those
  -- that were.
  pub run-Reports :
      (files : List (String × String)) (store last : Store) (out : MigrationSummary)
      → run graph files store ≡ (last, ok out)
      → Reports files store out
  run-Reports files store last out h =
      let r = run-Ran files store last out h in
      let same =
        migrate_all-extended r.already r.migrations (record { applied = []; skipped = [] }) r.read
          last out r.rounds in
      record {
        asked = r.bootstrapped;
        read = r.read;
        already = r.already;
        migrations = r.migrations;
        constraint = r.constraint;
        recorded = r.recorded;
        ordering =
            (ordered_migrations-IsOrdered {Failure = Failure} {Mismatch = Mismatch} files
              r.migrations r.order).0;
        applied = ap (λ (o : MigrationSummary). o.applied) same;
        skipped = ap (λ (o : MigrationSummary). o.skipped) same;
      }
