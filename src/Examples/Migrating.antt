-- ===== src/Examples/Migrating.antt =====
-- The theorems about the migrations at concrete inputs. The database holds the recorded versions, and
-- those that the open transaction has merged; a statement `BAD` is refused.
use aws_net_hound.Base.{
  ◌⊎◌, inl, ==_iff, arith, ◌≡◌, ◌↔◌, none, refl, sym, ap, subst, ◌++◌, ℕ, Bool, true, false, List,
  [], ◌∷◌, String, codes, Result, ok, err, inr, All,
}
use aws_net_hound.Base.Effect.{pair_parts}
use aws_net_hound.Base.Texts.{same_text}
use aws_net_hound.Base.Traverse.{ok_unique}
use aws_net_hound.Base.Sort.{sort_by_key}
use aws_net_hound.Base.Streams.{Stream, closed, item, failure_of}
use aws_net_hound.Base.Int.{pos}
use aws_net_hound.Net.{parse_u32}
use aws_net_hound.Migrations.Types.{Connection, Query, statement, merge_version, statement_failed}
use aws_net_hound.Migrations.Files.Names.{IsNamed, delimited}
use aws_net_hound.Base.Texts.Parts.{Lacks_of_all}
use aws_net_hound.Migrations.Files.{parse_version_prefix, ordered_migrations, split_statements}
use aws_net_hound.Migrations.Ledger.{Ledger, Lists}
use aws_net_hound.Migrations.Recorded.{Recorded}
use aws_net_hound.Migrations.Summary.{Reports, run-Reports}
use aws_net_hound.Migrations.Answering.{Succeeds, Answers, run-Succeeds_iff}
use aws_net_hound.Migrations.Twice.{run_twice}
use aws_net_hound.Migrations.{
  holds, apply_statements, write_version, apply_version, read_versions, read_applied,
  bootstrap_constraint, migrate_one, migrate_all, run,
}

record Database : Type 0 where
  recorded : List ℕ
  merging : List ℕ

abbrev rows_of : List ℕ → Stream String ℕ
rows_of [] = closed
rows_of (v ∷ vs) = item v (rows_of vs)

abbrev refuse_if : Bool → Result String (Unit {0})
refuse_if true = err "refused"
refuse_if false = ok tt

-- A version that is there is not merged again.
abbrev merged_if : Bool → ℕ → Database → Database
merged_if true version store = store
merged_if false version store = record store { merging = version ∷ store.merging }

abbrev answer_in : Query → Database → Database × Result String (Unit {0})
answer_in (statement cypher) store = (store, refuse_if (same_text cypher (codes "BAD")))
answer_in (merge_version version) store =
    (merged_if (holds (store.merging ++ store.recorded) version) version store, ok tt)

abbrev database : Connection Database (Unit {0}) ℕ String String
database = record {
  run = λ query store. (store, ok tt);
  execute = λ query store. (store, ok (rows_of store.recorded));
  get_version = λ row. ok (pos row);
  start_txn = λ store. (record store { merging = [] }, ok tt);
  run_in = λ txn query store. answer_in query store;
  commit_txn =
      λ txn store. (record { recorded = store.merging ++ store.recorded; merging = [] }, ok tt);
  rollback = λ txn store. (record store { merging = [] }, ok tt);
}

listed : (vs : List ℕ) → Lists database (rows_of vs) vs
listed [] = tt
listed (v ∷ vs) = (refl, listed vs)

merged_parts :
    (found : Bool) (version : ℕ) (store : Database)
    → ((merged_if found version store).recorded ≡ store.recorded)
      × (((merged_if found version store).merging ≡ store.merging)
          ⊎ ((merged_if found version store).merging ≡ version ∷ store.merging))
merged_parts true version store = (refl, inl refl)
merged_parts false version store = (refl, inr refl)

merged_holds :
    (found : Bool) (version : ℕ) (store : Database)
    → holds (store.merging ++ store.recorded) version ≡ found
    → holds
        ((merged_if found version store).merging ++ (merged_if found version store).recorded)
        version
      ≡ true
merged_holds true version store h = h
merged_holds false version store h = ground (arith, ==_iff version version)

abbrev ledger : Ledger database
ledger = record {
  versions = λ store. store.recorded;
  held = λ store. store.merging;
  plain = λ query store. refl;
  reads = λ query store. refl;
  answers = λ store later reply h. (
    store.recorded,
    subst (λ reply. Lists database reply store.recorded) (ok_unique refl (pair_parts h).1)
        (listed store.recorded),
    λ v. refl,
  );
  started = λ store. (refl, refl);
  ran = λ txn cypher store. (refl, refl);
  merged = λ txn version store.
      merged_parts (holds (store.merging ++ store.recorded) version) version store;
  merged_there = λ txn version store later h.
      subst (λ (after : Database). holds (after.merging ++ after.recorded) version ≡ true)
        (pair_parts h).0
        (merged_holds (holds (store.merging ++ store.recorded) version) version store refl);
  committed = λ txn store later h. sym (ap (λ (s : Database). s.recorded) (pair_parts h).0);
  uncommitted = λ txn store. inr refl;
  undone = λ txn store. refl;
}

abbrev fresh : Database
fresh = record { recorded = []; merging = [] }

abbrev files : List (String × String)
files =
    ("0010_indexes.cypher", "CREATE INDEX i;\n")
    ∷ ("0002_constraints.cypher", "// two; of them\nCREATE CONSTRAINT a;\n\nCREATE CONSTRAINT b;\n")
    ∷ []

abbrev migrated : Database
migrated = record { recorded = 10 ∷ 2 ∷ []; merging = [] }

first_run :
    run database files fresh ≡ (migrated, ok (record { applied = 2 ∷ 10 ∷ []; skipped = [] }))
unfolding run bootstrap_constraint read_applied read_versions migrate_all migrate_one apply_version
    write_version apply_statements ordered_migrations parse_version_prefix parse_u32
    split_statements sort_by_key
first_run = refl

second_run :
    run database files migrated ≡ (migrated, ok (record { applied = []; skipped = 2 ∷ 10 ∷ [] }))
unfolding run bootstrap_constraint read_applied read_versions migrate_all migrate_one apply_version
    write_version apply_statements ordered_migrations parse_version_prefix parse_u32
    split_statements sort_by_key
second_run = refl

run_twice_example : (◌≡◌ {A = List ℕ} [] []) × (migrated.recorded ≡ migrated.recorded)
run_twice_example = run_twice database ledger files fresh migrated migrated _ _ first_run second_run

run-Reports_example : Reports database files fresh (record { applied = 2 ∷ 10 ∷ []; skipped = [] })
run-Reports_example = run-Reports database files fresh migrated _ first_run

-- The second statement is refused, and nothing is recorded.
refused :
    apply_version database 3 "GOOD; BAD; GOOD" fresh ≡ (fresh, err (statement_failed 3 1 "refused"))
unfolding apply_version apply_statements split_statements
refused = refl

-- The same database, which accepts every statement.
abbrev willing : Connection Database (Unit {0}) ℕ String String
willing = record database {
  run_in = λ txn query store. elim query [
    | statement _ ↦ (store, ok tt)
    | merge_version version ↦ (record store { merging = version ∷ store.merging }, ok tt)
  ];
}

complete : (vs : List ℕ) → failure_of (rows_of vs) ≡ none
complete [] = refl
complete (v ∷ vs) = complete vs

accepted : (query : Query) (store : Database) → Succeeds (willing.run_in tt query store)
accepted (statement cypher) store = (store, tt, refl)
accepted (merge_version version) store = (_, tt, refl)

answers : Answers willing
answers = record {
  runs = λ query store. (store, tt, refl);
  executes = λ query store. (store, rows_of store.recorded, refl, complete store.recorded);
  has_version = λ row. (pos row, refl);
  starts = λ store. (record store { merging = [] }, tt, refl);
  runs_in = λ txn query store. accepted query store;
  commits =
      λ txn store. (record { recorded = store.merging ++ store.recorded; merging = [] }, tt, refl);
}

run-Succeeds_iff_example : Succeeds (run willing files fresh) ↔ All IsNamed files
run-Succeeds_iff_example = run-Succeeds_iff willing answers files fresh

-- The names of the two files give their versions, so the run succeeds.
named : All IsNamed files
unfolding parse_u32
named = (
  (
    10,
    delimited (codes "0010") (codes "indexes.cypher") refl (Lacks_of_all b'_' (codes "0010") refl)
        refl,
  ),
  (
    (
      2,
      delimited (codes "0002") (codes "constraints.cypher") refl
          (Lacks_of_all b'_' (codes "0002") refl) refl,
    ),
    tt,
  ),
)

succeeds : Succeeds (run willing files fresh)
succeeds = (run-Succeeds_iff willing answers files fresh).1 named
