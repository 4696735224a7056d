-- ===== src/Audit/Config/Validated.antt =====
-- crates/audit-local/src/config.rs: what a validated configuration is known to be.
use aws_net_hound.Base.{◌≡◌, refl, subst, ℕ, Bool, true, false, not, Result, ok, err, if◌then◌else◌}
use aws_net_hound.Base.Traverse.{ok_unique}
use aws_net_hound.Audit.Config.{
  Config, ValidatedConfig, ConfigError, empty_boundary, invalid_region, has_no_selector,
  region_valid, validate,
}

-- Some selector is there, and the region is not empty, has a dash and no uppercase letter.
pub record IsValidated (is_uppercase : ℕ → Bool) (config : ValidatedConfig) : Type 0 where
  pub selected : has_no_selector config.boundary ≡ false
  pub regional : region_valid is_uppercase config.region ≡ true

module _ {ReadFailure YamlFailure : Type 0} (is_uppercase : ℕ → Bool) where
  pub validate-IsValidated :
      (raw : Config) (config : ValidatedConfig)
      → validate {ReadFailure = ReadFailure} {YamlFailure = YamlFailure} is_uppercase raw
        ≡ ok config
      → IsValidated is_uppercase config
  unfolding validate
  validate-IsValidated raw config e =
      go (has_no_selector raw.boundary) (region_valid is_uppercase raw.region) refl refl e
    where
      unchanged : ValidatedConfig
      unchanged = record {
        region = raw.region;
        profile = raw.profile;
        boundary = raw.boundary;
        output_path = raw.output_path;
        neo4j = raw.neo4j;
      }

      guarded : (none valid : Bool) → Result (ConfigError ReadFailure YamlFailure) ValidatedConfig
      guarded none valid =
          if none
          then err empty_boundary
          else if not valid
          then err (invalid_region raw.region)
          else ok unchanged

      go :
          (none valid : Bool)
          → has_no_selector raw.boundary ≡ none
          → region_valid is_uppercase raw.region ≡ valid
          → guarded none valid ≡ ok config
          → IsValidated is_uppercase config
      go true valid n v e = absurd cc
      go false true n v e =
          subst (IsValidated is_uppercase) (ok_unique refl e)
            (record { selected = n; regional = v })
      go false false n v e = absurd cc
