-- ===== src/Examples/Scripts.antt =====
-- The theorem about the statements of migration files at a concrete input, and tests on the names and
-- the files of the repository.
use aws_net_hound.Base.{◌≡◌, refl, ℕ, List, [], ◌∷◌, String, codes, All, length, ok, err}
use aws_net_hound.Base.Texts.Parts.{Lacks_of_all}
use aws_net_hound.Base.Sort.{sort_by_key}
use aws_net_hound.Net.{parse_u32}
use aws_net_hound.Migrations.Types.{malformed_filename}
use aws_net_hound.Migrations.Files.{parse_version_prefix, ordered_migrations, split_statements}
use aws_net_hound.Migrations.Files.Statements.{
  Entry, comment, blank, command, source_of, commands_of, IsCommand, IsEntry,
  split_statements-source_of,
}
use aws_net_hound.Migrations.Embedded.{migration_files, constraints, indexes}

misnamed :
    ordered_migrations {Failure = String} {Mismatch = String} (("add_more.cypher", "") ∷ [])
    ≡ err (malformed_filename "add_more.cypher")
unfolding ordered_migrations parse_version_prefix parse_u32
misnamed = refl

-- A semicolon in a comment, blank lines, and a statement on two lines.
abbrev note : List ℕ
note = codes "// one; two"

abbrev indented : List ℕ
indented = codes "  // three"

abbrev constraint : List ℕ
constraint = codes "CREATE CONSTRAINT a\nFOR (n:A) REQUIRE n.id IS UNIQUE"

abbrev index : List ℕ
index = codes "CREATE INDEX b // all"

abbrev entries : List Entry
entries = comment note ∷ blank ∷ command constraint ∷ comment indented ∷ command index ∷ blank ∷ []

constraint-IsCommand : IsCommand constraint
constraint-IsCommand = record {
  filled = refl;
  trimmed = refl;
  whole = Lacks_of_all b';' constraint refl;
  plain = Lacks_of_all 13 constraint refl;
  uncommented = (refl, (refl, tt));
}

index-IsCommand : IsCommand index
index-IsCommand = record {
  filled = refl;
  trimmed = refl;
  whole = Lacks_of_all b';' index refl;
  plain = Lacks_of_all 13 index refl;
  uncommented = (refl, tt);
}

entries-IsEntry : All IsEntry entries
entries-IsEntry = (
  ((Lacks_of_all 10 note refl, Lacks_of_all 13 note refl), refl),
  (
    tt,
    (
      constraint-IsCommand,
      (
        ((Lacks_of_all 10 indented refl, Lacks_of_all 13 indented refl), refl),
        (index-IsCommand, (tt, tt)),
      ),
    ),
  ),
)

split_statements-source_of_example : split_statements (source_of entries) ≡ commands_of entries
split_statements-source_of_example = split_statements-source_of entries entries-IsEntry

-- The files of the repository: one statement for each `CREATE`.
embedded :
    (ordered_migrations {Failure = String} {Mismatch = String} migration_files
      ≡ ok (
          record { version = 1; filename = "0001_constraints.cypher"; content = constraints }
          ∷ record { version = 2; filename = "0002_indexes.cypher"; content = indexes }
          ∷ []))
    × (length (split_statements (codes constraints)) ≡ 7)
    × (length (split_statements (codes indexes)) ≡ 14)
unfolding ordered_migrations parse_version_prefix parse_u32 sort_by_key split_statements
embedded = (refl, refl, refl)
