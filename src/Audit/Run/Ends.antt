-- ===== src/Audit/Run/Ends.antt =====
-- crates/audit-local/src/lib.rs and run.rs: the program ends, and what an outcome means.
use aws_net_hound.Base.{
  ◌≡◌, refl, sym, subst, ◌∙◌, some, String, Result, ok, err, >>=-eq-ok, map_err, map_err-eq-ok,
}
use aws_net_hound.Base.Effect.{resume, resume-eq-ok, wrap_result, lift}
use aws_net_hound.Graph.Writer.{WriteError}
use aws_net_hound.Ingest.Client.{SdkConfig, build_sdk_config, resolve_account_id}
use aws_net_hound.Audit.Config.{ValidatedConfig, from_path, validate}
use aws_net_hound.Audit.Config.Validated.{IsValidated, validate-IsValidated}
use aws_net_hound.Audit.Outcome.{Outcome, clean}
use aws_net_hound.Audit.Preflight.{
  Machine, PreflightError, check_docker_available, wait_after, run as preflight_run,
}
use aws_net_hound.Audit.Preflight.Waiting.{IsClock, wait_for_healthy-Ending}
use aws_net_hound.Audit.World.{World, Report, preflight_error}
use aws_net_hound.Audit.Run.{
  Command, run_command, preflight_command, in_context, run_on_aws, run, read_config, run_read,
  dispatch,
}
use aws_net_hound.Audit.Run.Stages.{Completed, run_with_ec2_client-Completed, wrapped-eq-ok}

-- The check has an answer.
preflight_run_total :
    {Store : Type 0} (machine : Machine Store)
    → IsClock machine
    → (store : Store)
    → (answer : Store × Result PreflightError (Unit {0})) × (preflight_run machine store
        ≡ some answer)
unfolding preflight_run wait_after
preflight_run_total {Store} machine clock store = go (check_docker_available machine store)
  where
    go :
        (checked : Store × Result PreflightError (Unit {0}))
        → (answer : Store × Result PreflightError (Unit {0})) × (wait_after machine checked
            ≡ some answer)
    go (after, ok _) =
        let (answer, e, ending) = wait_for_healthy-Ending machine clock after in (answer, e)
    go (after, err e) = ((after, err e), refl)

module _
    {Store Txn Row Mismatch Stream Merged Failure SdkFailure Settings Duration Unread Yaml : Type 0}
    (world : World Store Txn Row Mismatch Stream Merged Failure SdkFailure Settings Duration Unread
      Yaml) where
  -- An audit from its preflight check on: the check found the service healthy, the account is known, and
  -- the stages were completed.
  pub record Audited (config : ValidatedConfig) (first last : Store) (outcome : Outcome)
      : Type 0 where
    pub checked : Store
    pub sdk_config : SdkConfig
    pub account_id : String
    pub preflight : preflight_run world.machine first ≡ some (checked, ok tt)
    pub region :
        build_sdk_config {Failure = SdkFailure} {WriteError = WriteError Failure} world.environment
          (some config.region)
        ≡ ok sdk_config
    pub caller :
        resolve_account_id {WriteError = WriteError Failure} (world.identity_of sdk_config)
        ≡ ok account_id
    pub completed :
        Completed world config (world.client_of sdk_config) account_id checked last outcome

  -- What an answer of the program says. An error says nothing more.
  abbrev pub Verdict :
      Command → Store → Store × Result (Report Failure Mismatch Unread Yaml) Outcome → Type 0
  Verdict command first (last, err e) = Unit
  Verdict (run_command path) first (last, ok outcome) =
      (config : ValidatedConfig) × (read_config world path ≡ ok config)
      × IsValidated world.is_uppercase config
      × Audited config first last outcome
  Verdict preflight_command first (last, ok outcome) =
      (preflight_run world.machine first ≡ some (last, ok tt)) × (outcome ≡ clean)

  run_on_aws-Audited :
      (config : ValidatedConfig) (first checked last : Store) (outcome : Outcome)
      → preflight_run world.machine first ≡ some (checked, ok tt)
      → run_on_aws world config checked ≡ (last, ok outcome)
      → Audited config first last outcome
  unfolding run_on_aws
  run_on_aws-Audited config first checked last outcome preflight e =
      let (s1, sdk_config, e1, r1) =
        resume-eq-ok
          (in_context world "stage: ingest" _
            (checked, build_sdk_config world.environment (some config.region)))
          _ e in
      let (s2, account_id, e2, r2) =
        resume-eq-ok
          (in_context world "stage: ingest" _
            (s1, resolve_account_id (world.identity_of sdk_config)))
          _ r1 in
      let (same_1, region) = wrapped-eq-ok _ checked (build_sdk_config world.environment _) e1 in
      let (same_2, caller) =
        wrapped-eq-ok _ s1 (resolve_account_id (world.identity_of sdk_config)) e2 in
      record {
        checked = checked;
        sdk_config = sdk_config;
        account_id = account_id;
        preflight = preflight;
        region = region;
        caller = caller;
        completed =
            subst
              (λ store.
                Completed world config (world.client_of sdk_config) account_id store last outcome)
              (sym (same_1 ∙ same_2))
              (run_with_ec2_client-Completed world config (world.client_of sdk_config) account_id s2
                last outcome r2);
      }

  -- An answer after a preflight check that has one.
  run-Audited :
      (config : ValidatedConfig) (first last : Store) (outcome : Outcome)
      (checked : Store × Result PreflightError (Unit {0}))
      → preflight_run world.machine first ≡ some checked
      → resume
          (in_context world "stage: preflight" preflight_error checked)
          (λ _. run_on_aws world config)
        ≡ (last, ok outcome)
      → Audited config first last outcome
  run-Audited config first last outcome (checked, ok _) preflight e =
      run_on_aws-Audited config first checked last outcome preflight e
  run-Audited config first last outcome (checked, err _) preflight e = absurd cc

  run_total :
      (config : ValidatedConfig) (first : Store)
      → IsClock world.machine
      → (answer : Store × Result (Report Failure Mismatch Unread Yaml) Outcome) × (run world config
            first
          ≡ some answer)
        × ((last : Store) (outcome : Outcome)
            → answer ≡ (last, ok outcome)
            → Audited config first last outcome)
  unfolding run
  run_total config first clock =
      let (checked, preflight) = preflight_run_total world.machine clock first in
      (
        resume (in_context world "stage: preflight" preflight_error checked)
            (λ _. run_on_aws world config),
        rw preflight refl,
        λ last outcome. run-Audited config first last outcome checked preflight,
      )

  read_config-IsValidated :
      (path : String) (config : ValidatedConfig)
      → read_config world path ≡ ok config
      → IsValidated world.is_uppercase config
  read_config-IsValidated path config e =
      let (raw, read, valid) =
        >>=-eq-ok (map_err _ (from_path world.from_str world.read_to_string path)) _ e in
      validate-IsValidated world.is_uppercase raw config
        (map_err-eq-ok _ (validate world.is_uppercase raw) valid)

  Verdict-run :
      (path : String) (config : ValidatedConfig) (first : Store)
      (answer : Store × Result (Report Failure Mismatch Unread Yaml) Outcome)
      → read_config world path ≡ ok config
      → ((last : Store) (outcome : Outcome)
          → answer ≡ (last, ok outcome)
          → Audited config first last outcome)
      → Verdict (run_command path) first answer
  Verdict-run path config first (last, err e) found h = tt
  Verdict-run path config first (last, ok outcome) found h =
      (config, found, read_config-IsValidated path config found, h last outcome refl)

  Verdict-preflight :
      (first : Store) (checked : Store × Result PreflightError (Unit {0}))
      → preflight_run world.machine first ≡ some checked
      → Verdict preflight_command first
          (resume (wrap_result preflight_error checked) (λ _. lift (ok clean)))
  Verdict-preflight first (last, ok _) preflight = (preflight, refl)
  Verdict-preflight first (last, err e) preflight = tt

  -- On a machine whose clock never runs backwards and whose sleeps take at least the time asked for,
  -- the program ends. An outcome of `run` means that the configuration was read and is valid, that the
  -- preflight check found the service healthy, that the region and the account were found, and that
  -- every stage was completed, with the exit code as the candidates demand; an outcome of `preflight`
  -- is clean, and means that the check went well.
  pub dispatch-Verdict :
      (command : Command) (first : Store)
      → IsClock world.machine
      → (answer : Store × Result (Report Failure Mismatch Unread Yaml) Outcome) × (dispatch world
            command first
          ≡ some answer)
        × Verdict command first answer
  unfolding dispatch run_read
  dispatch-Verdict (run_command path) first clock = go (read_config world path) refl
    where
      go :
          (config : Result (Report Failure Mismatch Unread Yaml) ValidatedConfig)
          → read_config world path ≡ config
          → (answer : Store × Result (Report Failure Mismatch Unread Yaml) Outcome) × (run_read
                world config first
              ≡ some answer)
            × Verdict (run_command path) first answer
      go (ok config) found =
          let (answer, ends, says) = run_total config first clock in
          (answer, ends, Verdict-run path config first answer found says)
      go (err e) found = ((first, err e), refl, tt)
  dispatch-Verdict preflight_command first clock =
      let (checked, preflight) = preflight_run_total world.machine clock first in
      (
        resume (wrap_result preflight_error checked) (λ _. lift (ok clean)),
        rw preflight refl,
        Verdict-preflight first checked preflight,
      )
