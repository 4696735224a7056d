-- ===== src/Ingest/Client.antt =====
-- crates/core/src/ingest/aws_client.rs: the region, the SDK's configuration and the account id. The
-- environment and the answer of STS are parameters.
use aws_net_hound.Base.{
  ℕ, Option, none, some, List, [], ◌∷◌, String, str_eq, Result, ok, ok_or, map_err, map_ok, ◌>>=◌,
  if◌then◌else◌,
}
use aws_net_hound.Ingest.Errors.{
  IngestError, region_not_resolved, account_id_resolution, account_id_missing,
}

abbrev pub max_attempts : ℕ
max_attempts = 8

-- In seconds.
abbrev pub attempt_timeout : ℕ
attempt_timeout = 20

-- The fields of the SDK's configuration that the code sets.
pub record SdkConfig : Type 0 where
  pub region : String
  pub attempts : ℕ
  pub operation_attempt_timeout : ℕ

-- `filter(|value| !value.is_empty())`.
abbrev pub non_empty : Option String → Option String
non_empty none = none
non_empty (some value) = if str_eq value "" then none else some value

-- `find_map` on the candidates.
unfoldable pub first_non_empty : List (Option String) → Option String
first_non_empty [] = none
first_non_empty (candidate ∷ rest) =
    let later = first_non_empty rest in
    elim (non_empty candidate) [ none ↦ later | some r ↦ some r ]

unfoldable pub resolve_region :
    Option String → Option String → Option String → Option String → Option String
unfolding first_non_empty
resolve_region explicit aws_region_env aws_default_region_env profile_region =
    first_non_empty (explicit ∷ aws_region_env ∷ aws_default_region_env ∷ profile_region ∷ [])

module _ {Failure WriteError : Type 0} where
  unfoldable pub build_sdk_config_from_sources :
      Option String
      → Option String
      → Option String
      → Option String
      → Result (IngestError Failure WriteError) SdkConfig
  unfolding resolve_region
  build_sdk_config_from_sources explicit aws_region_env aws_default_region_env profile_region = do
    region ←
        ok_or region_not_resolved
          (resolve_region explicit aws_region_env aws_default_region_env profile_region)
    ok (record {
      region = region;
      attempts = max_attempts;
      operation_attempt_timeout = attempt_timeout;
    })

  -- What `get_caller_identity` answers: an account, where there is one, or an error of the SDK.
  unfoldable pub resolve_account_id :
      Result Failure (Option String) → Result (IngestError Failure WriteError) String
  resolve_account_id identity = do
    account ← map_err account_id_resolution identity
    ok_or account_id_missing account

-- The environment variables and the profile that a region may come from.
pub record Environment : Type 0 where
  pub aws_region : Option String
  pub aws_default_region : Option String
  pub profile_region : Option String
  pub aws_profile : Option String
  pub neo4j_password : Option String

unfoldable pub build_sdk_config :
    {Failure WriteError : Type 0}
    → Environment
    → Option String
    → Result (IngestError Failure WriteError) SdkConfig
unfolding build_sdk_config_from_sources
build_sdk_config environment region =
    build_sdk_config_from_sources region environment.aws_region environment.aws_default_region
      environment.profile_region

-- `client_of` is the constructor of the SDK's client.
unfoldable pub build_ec2_client :
    {Failure WriteError Client : Type 0}
    → (SdkConfig → Client)
    → Environment
    → Option String
    → Result (IngestError Failure WriteError) Client
unfolding build_sdk_config
build_ec2_client client_of environment region =
    map_ok client_of (build_sdk_config environment region)
