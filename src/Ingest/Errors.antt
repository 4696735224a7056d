-- ===== src/Ingest/Errors.antt =====
-- crates/core/src/error.rs: `IngestError`, with the error of the SDK and that of the writer as
-- parameters.
use aws_net_hound.Base.{String}
use aws_net_hound.Ingest.Ports.{MappingError}

pub data IngestError (SdkFailure WriteError : Type 0) : Type 0 where
  region_not_resolved : IngestError SdkFailure WriteError
  describe : (operation : String) (source : SdkFailure) → IngestError SdkFailure WriteError
  mapping : (source : MappingError) → IngestError SdkFailure WriteError
  account_id_resolution : (source : SdkFailure) → IngestError SdkFailure WriteError
  account_id_missing : IngestError SdkFailure WriteError
  write : (source : WriteError) → IngestError SdkFailure WriteError
