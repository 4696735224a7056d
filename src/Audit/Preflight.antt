-- ===== src/Audit/Preflight.antt =====
-- crates/audit-local/src/preflight.rs: is Docker there, and is the `neo4j` service healthy. What the
-- commands answer and how the clock moves are parameters; times are in milliseconds. Printing and
-- logging are left out.
pub mod Waiting
pub mod Printed
use aws_net_hound.Base.{
  ℕ, zero, suc, ◌-◌, ◌/◌, Bool, true, false, not, Option, none, some, List, [], ◌∷◌, String, codes,
  is_empty, leb, map, Result, ok, err, ◌>>=◌, if◌then◌else◌,
}
use aws_net_hound.Base.Effect.{Effect, ◌>>>◌, ◌>>◌, lift}
use aws_net_hound.Base.Texts.{trim, lines, split, to_ascii_lowercase, same_text}

abbrev pub poll_interval : ℕ
poll_interval = 2000

abbrev pub poll_timeout : ℕ
poll_timeout = 180000

pub data ServiceHealth : Type 0 where
  healthy : ServiceHealth
  starting : ServiceHealth
  unhealthy : ServiceHealth
  absent : ServiceHealth

pub data PreflightError : Type 0 where
  docker_unavailable : (reason : List ℕ) → PreflightError
  compose_ps_failed : (stderr : List ℕ) → PreflightError
  unexpected_output : (line : List ℕ) → PreflightError
  service_absent : PreflightError
  not_healthy : (waited : ℕ) (last_state : ServiceHealth) → PreflightError

abbrev pub health_of : List ℕ → List ℕ → Result PreflightError ServiceHealth
health_of line health =
    let lower = map to_ascii_lowercase health in
    if same_text lower (codes "healthy")
    then ok healthy
    else if same_text lower (codes "starting")
    then ok starting
    else if same_text lower (codes "unhealthy")
    then ok unhealthy
    else err (unexpected_output line)

-- A line of the output, with what the lines after it answer.
unfoldable pub health_from_line :
    List ℕ
    → List (List ℕ)
    → Result PreflightError ServiceHealth
    → Result PreflightError ServiceHealth
health_from_line line (service ∷ health ∷ _) later =
    if not (same_text service (codes "neo4j")) then later else health_of line health
health_from_line line (_ ∷ []) later = err (unexpected_output line)
health_from_line line [] later = err (unexpected_output line)

unfoldable pub health_from_lines : List (List ℕ) → Result PreflightError ServiceHealth
unfolding health_from_line
health_from_lines [] = ok absent
health_from_lines (raw ∷ rest) =
    let line = trim raw in
    let later = health_from_lines rest in
    if is_empty line then later else health_from_line line (split b'|' line) later

unfoldable pub health_from_compose_ps : List ℕ → Result PreflightError ServiceHealth
unfolding health_from_lines
health_from_compose_ps stdout = health_from_lines (lines stdout)

-- What a finished process leaves; the two outputs are read as UTF-8, with replacements.
pub record Output : Type 0 where
  pub success : Bool
  pub stdout : List ℕ
  pub stderr : List ℕ

-- What the checks need of the machine. A command that cannot be started has a reason.
pub record Machine (Store : Type 0) : Type 0 where
  pub now : Store → ℕ
  pub compose_version : Effect Store (List ℕ) Output
  pub compose_ps : Effect Store (List ℕ) Output
  pub sleep : ℕ → Store → Store

abbrev pub checked :
    {A : Type 0}
    → (List ℕ → PreflightError)
    → (Output → A)
    → Result (List ℕ) Output
    → Result PreflightError A
checked failed answer (err reason) = err (docker_unavailable reason)
checked failed answer (ok output) =
    if not output.success then err (failed (trim output.stderr)) else ok (answer output)

-- What a round of the loop does with the answer: nothing is left to do, or it sleeps and goes on.
pub data Round (Store : Type 0) : Type 0 where
  done : Store × Result PreflightError (Unit {0}) → Round Store
  again : Store → Round Store

module _ {Store : Type 0} (machine : Machine Store) where
  unfoldable pub check_docker_available : Effect Store PreflightError (Unit {0})
  check_docker_available store =
      let (after, reply) = machine.compose_version store in
      (after, checked docker_unavailable (λ _. tt) reply)

  unfoldable pub compose_ps : Effect Store PreflightError (List ℕ)
  compose_ps store =
      let (after, reply) = machine.compose_ps store in
      (after, checked compose_ps_failed (λ output. output.stdout) reply)

  unfoldable pub service_health : Effect Store PreflightError ServiceHealth
  unfolding compose_ps
  service_health = compose_ps >>> λ stdout. lift (health_from_compose_ps stdout)

  abbrev pub not_ready : ℕ → ServiceHealth → Store → Round Store
  not_ready start health store =
      let waited = machine.now store - start in
      if leb poll_timeout waited
      then done (store, err (not_healthy waited health))
      else again (machine.sleep poll_interval store)

  abbrev pub react : ℕ → Store × Result PreflightError ServiceHealth → Round Store
  react start (store, err e) = done (store, err e)
  react start (store, ok healthy) = done (store, ok tt)
  react start (store, ok absent) = done (store, err service_absent)
  react start (store, ok starting) = not_ready start starting store
  react start (store, ok unhealthy) = not_ready start unhealthy store

  unfoldable pub poll_once : ℕ → Store → Round Store
  poll_once start store = react start (service_health store)

  -- The loop, for at most so many rounds; nothing where they do not end it.
  unfoldable pub wait_loop : ℕ → ℕ → Store → Option (Store × Result PreflightError (Unit {0}))
  unfolding poll_once
  wait_loop zero start store = none
  wait_loop (suc rounds) start store = elim (poll_once start store) [
    | done answer ↦ some answer
    | again after ↦ wait_loop rounds start after
  ]

  unfoldable pub wait_for_healthy : Store → Option (Store × Result PreflightError (Unit {0}))
  unfolding wait_loop
  wait_for_healthy store = wait_loop (suc (poll_timeout / poll_interval)) (machine.now store) store

  unfoldable pub wait_after :
      Store × Result PreflightError (Unit {0}) → Option (Store × Result PreflightError (Unit {0}))
  unfolding wait_for_healthy
  wait_after (store, ok _) = wait_for_healthy store
  wait_after (store, err e) = some (store, err e)

  unfoldable pub run : Store → Option (Store × Result PreflightError (Unit {0}))
  unfolding check_docker_available
  run store = wait_after (check_docker_available store)
