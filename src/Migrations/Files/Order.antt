-- ===== src/Migrations/Files/Order.antt =====
-- crates/core/src/migrations.rs: proofs about the versions and the order of the files.
use aws_net_hound.Base.{
  ◌≡◌, ◌<◌, ℕ, List, String, Option, none, some, All, Bool-cases, inl, inr, ok, ok_or-eq-ok,
  is_empty, Result, subst, traverse, codes,
}
use aws_net_hound.Base.Sort.{IsSortedBy}
use aws_net_hound.Base.Sort.Order.{sort_by_key-All, sort_by_key-IsSortedBy}
use aws_net_hound.Base.Traverse.{traverse-All, map_ok-eq-ok}
use aws_net_hound.Base.Texts.{split}
use aws_net_hound.Net.Bounds.{parse_u32-lt}
use aws_net_hound.Migrations.Types.{MigrationError, malformed_filename}
use aws_net_hound.Migrations.Files.{
  Migration, first_part, version_of, parse_version_prefix, migration_of, ordered_migrations,
}

version_of-lt : (o : Option (List ℕ)) (n : ℕ) → version_of o ≡ some n → n < 4294967296
version_of-lt none n h = absurd cc
version_of-lt (some prefix) n h = elim (Bool-cases (is_empty prefix)) [
  | inl none_left ↦ absurd (cc (rw none_left at h))
  | inr some_left ↦ parse_u32-lt prefix n (rw some_left at h)
]

module _ {Failure Mismatch : Type 0} where
  abbrev prefix_of : String → Result (MigrationError Failure Mismatch) ℕ
  prefix_of = parse_version_prefix

  -- A version fits into its `u32`.
  parse_version_prefix-lt : (filename : String) (n : ℕ) → prefix_of filename ≡ ok n → n < 4294967296
  unfolding parse_version_prefix
  parse_version_prefix-lt filename n h =
      version_of-lt (first_part (split b'_' (codes filename))) n
        (ok_or-eq-ok (malformed_filename filename) _ h)

  pub ordered_migrations-lt :
      (files : List (String × String)) (ms : List Migration)
      → ordered_migrations {Failure = Failure} {Mismatch = Mismatch} files ≡ ok ms
      → All (λ (m : Migration). m.version < 4294967296) ms
  unfolding ordered_migrations
  ordered_migrations-lt files ms h =
      let (found, walk, sorted) =
        map_ok-eq-ok _ (traverse (migration_of {Failure = Failure} {Mismatch = Mismatch}) files)
          h in
      subst (All (λ (m : Migration). m.version < 4294967296)) sorted (
        sort_by_key-All _ _ found (
          traverse-All migration_of _
            (λ (filename, content) m step.
              let (n, parsed, made) = map_ok-eq-ok _ (prefix_of filename) step in
              subst (λ (m : Migration). m.version < 4294967296) made
                (parse_version_prefix-lt filename n parsed))
            files walk))

  pub ordered_migrations-IsSortedBy :
      (files : List (String × String)) (ms : List Migration)
      → ordered_migrations {Failure = Failure} {Mismatch = Mismatch} files ≡ ok ms
      → IsSortedBy (λ (m : Migration). m.version) ms
  unfolding ordered_migrations
  ordered_migrations-IsSortedBy files ms h =
      let (found, walk, sorted) =
        map_ok-eq-ok _ (traverse (migration_of {Failure = Failure} {Mismatch = Mismatch}) files)
          h in
      subst (IsSortedBy (λ (m : Migration). m.version)) sorted (sort_by_key-IsSortedBy _ found)
