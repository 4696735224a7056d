-- ===== src/Audit/Failure.antt =====
-- crates/audit-local/src/aws_error.rs: an ingestion failure, classified for the operator. The chain of
-- sources that `anyhow` walks is a list, and a downcast a match on what stands in it.
pub mod Classes
use aws_net_hound.Base.{
  Option, none, some, List, [], ◌∷◌, Bool, true, false, ◌||◌, String, str_eq, if◌then◌else◌,
}

-- `CredentialsError`, of which two variants are told apart.
pub data CredentialsError : Type 0 where
  credentials_not_loaded : CredentialsError
  invalid_configuration : CredentialsError
  other_error : CredentialsError

-- The operations whose error types are downcast to.
pub data Operation : Type 0 where
  describe_security_groups : Operation
  describe_network_acls : Operation
  describe_route_tables : Operation
  describe_network_interfaces : Operation
  describe_vpc_peering_connections : Operation

-- An error of the chain: one of the credentials, an SDK error of STS or of EC2 with its code, or any
-- other.
pub data Cause : Type 0 where
  credentials : CredentialsError → Cause
  sts : (code : Option String) → Cause
  ec2 : Operation → (code : Option String) → Cause
  other_cause : Cause

-- Every variant keeps the whole chain as its source.
pub data AwsFailure : Type 0 where
  profile_not_found : (profile : String) (source : List Cause) → AwsFailure
  credentials_not_configured : (source : List Cause) → AwsFailure
  expired_credentials : (source : List Cause) → AwsFailure
  access_denied : (operation iam_action : String) (source : List Cause) → AwsFailure
  throttled : (source : List Cause) → AwsFailure
  other_failure : (source : List Cause) → AwsFailure

unfoldable pub iam_action_for : String → String
iam_action_for operation =
    if str_eq operation "DescribeSecurityGroups"
    then "ec2:DescribeSecurityGroups"
    else if str_eq operation "DescribeNetworkAcls"
    then "ec2:DescribeNetworkAcls"
    else if str_eq operation "DescribeRouteTables"
    then "ec2:DescribeRouteTables"
    else if str_eq operation "DescribeNetworkInterfaces"
    then "ec2:DescribeNetworkInterfaces"
    else if str_eq operation "DescribeVpcPeeringConnections"
    then "ec2:DescribeVpcPeeringConnections"
    else if str_eq operation "GetCallerIdentity"
    then "sts:GetCallerIdentity"
    else "the required EC2 read permission"

pub data Class : Type 0 where
  profile_missing : (profile : String) → Class
  not_configured : Class
  expired : Class
  denied : (operation iam_action : String) → Class
  throttling : Class

unfoldable pub into_failure : Class → List Cause → AwsFailure
into_failure (profile_missing profile) source = profile_not_found profile source
into_failure not_configured source = credentials_not_configured source
into_failure expired source = expired_credentials source
into_failure (denied operation iam_action) source = access_denied operation iam_action source
into_failure throttling source = throttled source

abbrev pub is_one_of : String → List String → Bool
is_one_of code [] = false
is_one_of code (c ∷ cs) = str_eq code c || is_one_of code cs

abbrev pub expired_codes : List String
expired_codes = "ExpiredToken" ∷ "RequestExpired" ∷ "ExpiredTokenException" ∷ []

abbrev pub denied_codes : List String
denied_codes =
    "UnauthorizedOperation" ∷ "AccessDenied" ∷ "AccessDeniedException" ∷ "AuthFailure" ∷ []

abbrev pub throttling_codes : List String
throttling_codes = "RequestLimitExceeded" ∷ "Throttling" ∷ "ThrottlingException" ∷ []

unfoldable pub classify_code : String → Option String → Option Class
unfolding iam_action_for
classify_code operation none = none
classify_code operation (some code) =
    if is_one_of code expired_codes
    then some expired
    else if is_one_of code denied_codes
    then some (denied operation (iam_action_for operation))
    else if is_one_of code throttling_codes
    then some throttling
    else none

abbrev profile_or_default : Option String → String
profile_or_default none = "default"
profile_or_default (some profile) = profile

unfoldable pub classify_credentials_error : CredentialsError → Option String → Option Class
classify_credentials_error credentials_not_loaded profile = some not_configured
classify_credentials_error invalid_configuration profile =
    some (profile_missing (profile_or_default profile))
classify_credentials_error other_error profile = none

abbrev pub operation_name : Operation → String
operation_name describe_security_groups = "DescribeSecurityGroups"
operation_name describe_network_acls = "DescribeNetworkAcls"
operation_name describe_route_tables = "DescribeRouteTables"
operation_name describe_network_interfaces = "DescribeNetworkInterfaces"
operation_name describe_vpc_peering_connections = "DescribeVpcPeeringConnections"

-- Only the error type of the failing operation is tried.
unfoldable pub classify_describe_error : String → Cause → Option Class
unfolding classify_code
classify_describe_error operation (ec2 called code) =
    if str_eq operation (operation_name called) then classify_code operation code else none
classify_describe_error operation (credentials _) = none
classify_describe_error operation (sts _) = none
classify_describe_error operation other_cause = none

-- The closure of the `find_map` over the chain.
unfoldable pub classify_cause : String → Option String → Cause → Option Class
unfolding classify_code classify_credentials_error classify_describe_error
classify_cause operation profile (credentials error) = classify_credentials_error error profile
classify_cause operation profile (sts code) = classify_code operation code
classify_cause operation profile (ec2 called code) =
    classify_describe_error operation (ec2 called code)
classify_cause operation profile other_cause = none

unfoldable pub find_class : String → Option String → List Cause → Option Class
unfolding classify_cause
find_class operation profile [] = none
find_class operation profile (cause ∷ causes) =
    let later = find_class operation profile causes in
    elim (classify_cause operation profile cause) [ some class ↦ some class | none ↦ later ]

-- `profile` is the variable `AWS_PROFILE`.
unfoldable pub classify : Option String → String → List Cause → AwsFailure
unfolding find_class into_failure
classify profile operation error = elim (find_class operation profile error) [
  | some class ↦ into_failure class error
  | none ↦ other_failure error
]
