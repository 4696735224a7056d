-- ===== src/Migrations/Files.antt =====
-- crates/core/src/migrations.rs: the versions of the files, their order, and their statements.
pub mod Order
pub mod Names
pub mod Statements
use aws_net_hound.Base.{
  ℕ, ◌==◌, Option, none, some, List, [], ◌∷◌, not, String, codes, filter, map, is_empty, Result,
  ok_or, traverse, map_ok, if◌then◌else◌, Bool, true, false,
}
use aws_net_hound.Base.Sort.{sort_by_key}
use aws_net_hound.Base.Texts.{split, lines, join, trim, trim_start, starts_with}
use aws_net_hound.Net.{parse_u32}
use aws_net_hound.Migrations.Types.{MigrationError, malformed_filename}

-- The first part of a text up to the character; a split has one always.
abbrev first_part : List (List ℕ) → Option (List ℕ)
first_part [] = none
first_part (part ∷ _) = some part

abbrev version_of : Option (List ℕ) → Option ℕ
version_of none = none
version_of (some prefix) = if is_empty prefix then none else parse_u32 prefix

-- A file with its version, as `(version, filename, content)`.
pub record Migration : Type 0 where
  pub version : ℕ
  pub filename : String
  pub content : String

module _ {Failure Mismatch : Type 0} where
  unfoldable pub parse_version_prefix : String → Result (MigrationError Failure Mismatch) ℕ
  unfolding parse_u32
  parse_version_prefix filename =
      ok_or (malformed_filename filename) (version_of (first_part (split b'_' (codes filename))))

  abbrev pub migration_of : String × String → Result (MigrationError Failure Mismatch) Migration
  migration_of (filename, content) =
      map_ok (λ version. record { version = version; filename = filename; content = content })
        (parse_version_prefix filename)

  unfoldable pub ordered_migrations :
      List (String × String) → Result (MigrationError Failure Mismatch) (List Migration)
  ordered_migrations files =
      map_ok (sort_by_key (λ (m : Migration). m.version)) (traverse migration_of files)

abbrev pub comment_mark : List ℕ
comment_mark = b'/' ∷ b'/' ∷ []

abbrev pub is_comment : List ℕ → Bool
is_comment line = starts_with (trim_start line) comment_mark

unfoldable pub split_statements : List ℕ → List (List ℕ)
split_statements source =
    let without_comments = join 10 (filter (λ line. not (is_comment line)) (lines source)) in
    filter (λ s. not (is_empty s)) (map trim (split b';' without_comments))
