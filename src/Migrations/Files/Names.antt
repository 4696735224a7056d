-- ===== src/Migrations/Files/Names.antt =====
-- crates/core/src/migrations.rs: which version a file name gives, told apart from how it is parsed, and
-- which files `ordered_migrations` gives.
use mathlib.Core.List.Perm
use mathlib.Core.List.{Perm}
use aws_net_hound.Base.{
  ◌≡◌, refl, sym, ap, subst, ◌∙◌, ◌⊎◌, ℕ, ◌==◌, ==_iff, Bool-cases, inl, inr, some, List, [], ◌∷◌,
  ◌++◌, String, codes, All, Result, ok, ok_or, ok_or-eq-ok, traverse, map, >>=-eq-ok, map_ok,
}
use aws_net_hound.Base.Sort.{IsSortedBy, sort_by_key}
use aws_net_hound.Base.Sort.Order.{sort_by_key-perm, sort_by_key-All}
use aws_net_hound.Base.Traverse.{map_ok-eq-ok, ok_unique}
use aws_net_hound.Base.Texts.{split}
use aws_net_hound.Base.Texts.Parts.{Lacks, split-append, split_whole}
use aws_net_hound.Net.{parse_u32}
use aws_net_hound.Migrations.Types.{MigrationError, malformed_filename}
use aws_net_hound.Migrations.Files.{
  Migration, first_part, version_of, parse_version_prefix, migration_of, ordered_migrations,
}
use aws_net_hound.Migrations.Files.Order.{ordered_migrations-IsSortedBy}

-- A name gives the number that stands in front of its first underscore, or that it is as a whole.
pub data HasVersion (name : List ℕ) (version : ℕ) : Type 0 where
  delimited :
      (prefix rest : List ℕ)
      → name ≡ prefix ++ b'_' ∷ rest
      → Lacks b'_' prefix
      → parse_u32 prefix ≡ some version
      → HasVersion name version
  whole : Lacks b'_' name → parse_u32 name ≡ some version → HasVersion name version

abbrev pub IsNamed : String × String → Type 0
IsNamed (filename, content) = (version : ℕ) × HasVersion (codes filename) version

-- A text has no separator, or a first one.
first-cases :
    (sep : ℕ) (s : List ℕ)
    → Lacks sep s
      ⊎ ((prefix : List ℕ) × (rest : List ℕ) × (s ≡ prefix ++ sep ∷ rest) × Lacks sep prefix)
first-cases sep [] = inl tt
first-cases sep (c ∷ s) = elim (Bool-cases (c == sep)) [
  | inl same ↦ inr ([], s, ap (λ d. d ∷ s) ((==_iff c sep).0 same), tt)
  | inr other ↦ elim (first-cases sep s) [
    | inl lacks ↦ inl (other, lacks)
    | inr (prefix, rest, e, lacks) ↦ inr (c ∷ prefix, rest, ap (λ t. c ∷ t) e, (other, lacks))
  ]
]

version_of-parse_u32 : (prefix : List ℕ) → version_of (some prefix) ≡ parse_u32 prefix
unfolding parse_u32
version_of-parse_u32 [] = refl
version_of-parse_u32 (c ∷ s) = refl

HasVersion_lem :
    (name : List ℕ) (version : ℕ)
    → HasVersion name version
    → version_of (first_part (split b'_' name)) ≡ some version
HasVersion_lem name version (delimited prefix rest e lacks parsed) =
    ap (λ n. version_of (first_part (split b'_' n))) e
    ∙ ap (λ parts. version_of (first_part parts)) (split-append b'_' prefix rest lacks)
    ∙ version_of-parse_u32 prefix
    ∙ parsed
HasVersion_lem name version (whole lacks parsed) =
    ap (λ parts. version_of (first_part parts)) (split_whole b'_' name lacks)
    ∙ version_of-parse_u32 name
    ∙ parsed

HasVersion_of :
    (name : List ℕ) (version : ℕ)
    → version_of (first_part (split b'_' name)) ≡ some version
    → HasVersion name version
HasVersion_of name version h = elim (first-cases b'_' name) [
  | inl lacks ↦ whole lacks (
      sym (version_of-parse_u32 name)
      ∙ ap (λ parts. version_of (first_part parts)) (sym (split_whole b'_' name lacks))
      ∙ h)
  | inr (prefix, rest, e, lacks) ↦ delimited prefix rest e lacks (
      sym (version_of-parse_u32 prefix)
      ∙ ap (λ parts. version_of (first_part parts)) (sym (split-append b'_' prefix rest lacks))
      ∙ ap (λ n. version_of (first_part (split b'_' n))) (sym e)
      ∙ h)
]

abbrev pub file_of : Migration → String × String
file_of m = (m.filename, m.content)

-- The migrations are the files in the order of their versions, each with the version of its name.
pub record IsOrdered (files : List (String × String)) (ms : List Migration) : Type 0 where
  pub all_files : Perm (map file_of ms) files
  pub ascending : IsSortedBy (λ (m : Migration). m.version) ms
  pub versions : All (λ (m : Migration). HasVersion (codes m.filename) m.version) ms

-- What the walk gives: the files themselves, each with the version of its name.
abbrev Walked : List (String × String) → List Migration → Type 0
Walked files found =
    (map file_of found ≡ files)
    × All (λ (m : Migration). HasVersion (codes m.filename) m.version) found
    × All IsNamed files

module _ {Failure Mismatch : Type 0} where
  abbrev parsed_from : String → Result (MigrationError Failure Mismatch) ℕ
  parsed_from = parse_version_prefix

  parse_version_prefix-HasVersion :
      (filename : String) (version : ℕ)
      → parsed_from filename ≡ ok version
      → HasVersion (codes filename) version
  unfolding parse_version_prefix
  parse_version_prefix-HasVersion filename version h =
      HasVersion_of (codes filename) version (ok_or-eq-ok (malformed_filename filename) _ h)

  parse_version_prefix_of :
      (filename : String) (version : ℕ)
      → HasVersion (codes filename) version
      → parsed_from filename ≡ ok version
  unfolding parse_version_prefix
  parse_version_prefix_of filename version h =
      ap (ok_or (malformed_filename filename)) (HasVersion_lem (codes filename) version h)

  abbrev walked : List (String × String) → Result (MigrationError Failure Mismatch) (List Migration)
  walked = traverse migration_of

  walked_lem :
      (files : List (String × String)) (found : List Migration)
      → walked files ≡ ok found
      → Walked files found
  walked_lem [] found h = subst (Walked []) (ok_unique refl h) (refl, tt, tt)
  walked_lem ((filename, content) ∷ files) found h =
      let (m, first, more) = >>=-eq-ok (migration_of (filename, content)) _ h in
      let (others, rest, last) = >>=-eq-ok (walked files) _ more in
      let (version, parsed, made) = map_ok-eq-ok _ (parsed_from filename) first in
      let (same, named, all) = walked_lem files others rest in
      let has = parse_version_prefix-HasVersion filename version parsed in
      subst (Walked ((filename, content) ∷ files)) (ok_unique refl last) (
        subst (λ (m : Migration). Walked ((filename, content) ∷ files) (m ∷ others)) made
          (ap (λ rest. (filename, content) ∷ rest) same, (has, named), ((version, has), all)))

  walked_of_named :
      (files : List (String × String))
      → All IsNamed files
      → (found : List Migration) × (walked files ≡ ok found)
  walked_of_named [] h = ([], refl)
  walked_of_named ((filename, content) ∷ files) ((version, has), h) =
      let (found, rest) = walked_of_named files h in
      (
        record { version = version; filename = filename; content = content } ∷ found,
        rw (parse_version_prefix_of filename version has, rest) refl,
      )

  abbrev ordered :
      List (String × String) → Result (MigrationError Failure Mismatch) (List Migration)
  ordered = ordered_migrations

  pub ordered_migrations-IsOrdered :
      (files : List (String × String)) (ms : List Migration)
      → ordered files ≡ ok ms
      → IsOrdered files ms × All IsNamed files
  unfolding ordered_migrations
  ordered_migrations-IsOrdered files ms h =
      let (found, walk, sorted) = map_ok-eq-ok _ (walked files) h in
      let (same, named, all) = walked_lem files found walk in
      (
        subst (IsOrdered files) sorted (record {
          all_files =
              subst (Perm _) same
                (Perm.map file_of (sort_by_key-perm (λ (m : Migration). m.version) found));
          ascending =
              subst (IsSortedBy (λ (m : Migration). m.version)) (sym sorted) (
                ordered_migrations-IsSortedBy {Failure = Failure} {Mismatch = Mismatch} files ms h);
          versions = sort_by_key-All (λ (m : Migration). m.version) _ found named;
        }),
        all,
      )

  pub ordered_migrations_of_named :
      (files : List (String × String))
      → All IsNamed files
      → (ms : List Migration) × (ordered files ≡ ok ms)
  unfolding ordered_migrations
  ordered_migrations_of_named files h =
      let (found, walk) = walked_of_named files h in
      (sort_by_key (λ (m : Migration). m.version) found, ap (map_ok _) walk)
