-- ===== src/Audit/Config.antt =====
-- crates/audit-local/src/config.rs: the configuration and its validation. What serde makes of the YAML
-- text and which characters Unicode calls uppercase are parameters.
pub mod Validated
use aws_net_hound.Base.{
  ℕ, ◌==◌, Bool, not, ◌&&◌, List, String, codes, all, any, is_empty, str_eq, Result, ok, err,
  map_err, ◌>>=◌, if◌then◌else◌,
}

pub record BoundaryConfig : Type 0 where
  pub vpc_ids : List String
  pub cidrs : List String
  pub tags : List String

unfoldable pub has_no_selector : BoundaryConfig → Bool
has_no_selector boundary =
    is_empty boundary.vpc_ids && is_empty boundary.cidrs && is_empty boundary.tags

pub record Neo4jConfig : Type 0 where
  pub uri : String
  pub user : String

-- `Config`, and a `ValidatedConfig` with the same fields.
pub record Config : Type 0 where
  pub region : String
  pub profile : String
  pub boundary : BoundaryConfig
  pub output_path : String
  pub neo4j : Neo4jConfig

pub record ValidatedConfig : Type 0 where
  pub region : String
  pub profile : String
  pub boundary : BoundaryConfig
  pub output_path : String
  pub neo4j : Neo4jConfig

pub data ConfigError (ReadFailure YamlFailure : Type 0) : Type 0 where
  unreadable_file : (path : String) (source : ReadFailure) → ConfigError ReadFailure YamlFailure
  malformed : (source : YamlFailure) → ConfigError ReadFailure YamlFailure
  empty_boundary : ConfigError ReadFailure YamlFailure
  invalid_region : (region : String) → ConfigError ReadFailure YamlFailure

unfoldable pub region_valid : (ℕ → Bool) → String → Bool
region_valid is_uppercase region =
    not (str_eq region "")
    && all (λ c. not (is_uppercase c)) (codes region)
    && any (λ c. c == b'-') (codes region)

module _ {ReadFailure YamlFailure : Type 0} where
  unfoldable pub parse :
      (String → Result YamlFailure Config)
      → String
      → Result (ConfigError ReadFailure YamlFailure) Config
  parse from_str yaml = map_err malformed (from_str yaml)

  unfoldable pub from_path :
      (String → Result YamlFailure Config)
      → (String → Result ReadFailure String)
      → String
      → Result (ConfigError ReadFailure YamlFailure) Config
  unfolding parse
  from_path from_str read_to_string path =
      map_err (unreadable_file path) (read_to_string path) >>= parse from_str

  unfoldable pub validate :
      (ℕ → Bool) → Config → Result (ConfigError ReadFailure YamlFailure) ValidatedConfig
  unfolding has_no_selector region_valid
  validate is_uppercase config =
      if has_no_selector config.boundary
      then err empty_boundary
      else if not (region_valid is_uppercase config.region)
      then err (invalid_region config.region)
      else ok (record {
        region = config.region;
        profile = config.profile;
        boundary = config.boundary;
        output_path = config.output_path;
        neo4j = config.neo4j;
      })
