-- ===== src/Audit/Preflight/Waiting.antt =====
-- crates/audit-local/src/preflight.rs: the loop ends, and what its answer means.
use aws_net_hound.Base.{
  ℕ, zero, suc, ◌+◌, ◌-◌, ◌*◌, ◌≤◌, ◌<◌, ◌≡◌, refl, subst, sym, Option, some, Result, ok, err, ◌⊎◌,
  inl, inr, leb, leb→le, Bool, true, false, if◌then◌else◌, arith,
}
use aws_net_hound.Base.Effect.{lift, resume}
use aws_net_hound.Audit.Preflight.{
  ServiceHealth, healthy, starting, unhealthy, absent, PreflightError, service_absent, not_healthy,
  Machine, Round, done, again, poll_interval, poll_timeout, service_health, react, not_ready,
  poll_once, wait_loop, wait_for_healthy, health_from_compose_ps, compose_ps,
}

leb-lt : (a b : ℕ) → leb a b ≡ false → b < a
leb-lt a b e = ground arith

module _ {Store : Type 0} (machine : Machine Store) where
  -- Sleeping takes at least the time asked for, and a command never turns the clock back.
  pub record IsClock : Type 0 where
    pub sleeps :
        (ms : ℕ) (store : Store) → machine.now store + ms ≤ machine.now (machine.sleep ms store)
    pub runs : (store : Store) → machine.now store ≤ machine.now (machine.compose_ps store).0

  -- What the last question to the service, asked of the store `before`, says of the end of the loop.
  pub data Ending (start : ℕ) : Store × Result PreflightError (Unit {0}) → Type 0 where
    was_healthy :
        (before after : Store)
        → service_health machine before ≡ (after, ok healthy)
        → Ending start (after, ok tt)
    was_absent :
        (before after : Store)
        → service_health machine before ≡ (after, ok absent)
        → Ending start (after, err service_absent)
    timed_out :
        (before after : Store) (health : ServiceHealth)
        → service_health machine before ≡ (after, ok health)
        → ((health ≡ starting) ⊎ (health ≡ unhealthy))
        → poll_timeout ≤ machine.now after - start
        → Ending start (after, err (not_healthy (machine.now after - start) health))
    was_failed :
        (before after : Store) (e : PreflightError)
        → service_health machine before ≡ (after, err e)
        → Ending start (after, err e)

  lifted-store :
      {E A B : Type 0} (store : Store) (r : Result E A) (f : A → Result E B)
      → (resume (store, r) (λ a. lift (f a))).0 ≡ store
  lifted-store store (ok a) f = refl
  lifted-store store (err e) f = refl

  module _ (clock : IsClock) where
    service_health_later :
        (store : Store) → machine.now store ≤ machine.now (service_health machine store).0
    unfolding service_health compose_ps
    service_health_later store =
        subst (λ after. machine.now store ≤ machine.now after)
          (sym (
            lifted-store (compose_ps machine store).0 (compose_ps machine store).1
              health_from_compose_ps))
          (clock.runs store)

    -- What is known of a round that starts in a given store.
    abbrev Step : ℕ → Store → Round Store → Type 0
    Step start store (done answer) = Ending start answer
    Step start store (again after) =
        (machine.now store < start + poll_timeout)
        × (machine.now store + poll_interval ≤ machine.now after)

    not_ready-Step :
        (start : ℕ) (store after : Store) (last : ServiceHealth)
        → service_health machine store ≡ (after, ok last)
        → machine.now store ≤ machine.now after
        → ((last ≡ starting) ⊎ (last ≡ unhealthy))
        → Step start store (not_ready machine start last after)
    not_ready-Step start store after last e later h =
        go (leb poll_timeout (machine.now after - start)) refl
      where
        go :
            (late : Bool)
            → leb poll_timeout (machine.now after - start) ≡ late
            → Step start store (
                if late
                then done (after, err (not_healthy (machine.now after - start) last))
                else again (machine.sleep poll_interval after))
        go true late = timed_out store after last e h (leb→le _ _ late)
        go false early =
            let slept = clock.sleeps poll_interval after in
            let short = leb-lt _ _ early in (omega arith, omega arith)

    react-Step :
        (start : ℕ) (store : Store) (reply : Store × Result PreflightError ServiceHealth)
        → service_health machine store ≡ reply
        → machine.now store ≤ machine.now reply.0
        → Step start store (react machine start reply)
    react-Step start store (after, err e) asked later = was_failed store after e asked
    react-Step start store (after, ok healthy) asked later = was_healthy store after asked
    react-Step start store (after, ok absent) asked later = was_absent store after asked
    react-Step start store (after, ok starting) asked later =
        not_ready-Step start store after starting asked later (inl refl)
    react-Step start store (after, ok unhealthy) asked later =
        not_ready-Step start store after unhealthy asked later (inr refl)

    poll_once-Step : (start : ℕ) (store : Store) → Step start store (poll_once machine start store)
    unfolding poll_once
    poll_once-Step start store =
        react-Step start store (service_health machine store) refl (service_health_later store)

    abbrev Ends : ℕ → Option (Store × Result PreflightError (Unit {0})) → Type 0
    Ends start o =
        (answer : Store × Result PreflightError (Unit {0})) × (o ≡ some answer)
        × Ending start answer

    round-Ends :
        (start : ℕ) (store : Store) (round : Round Store)
        (next : Store → Option (Store × Result PreflightError (Unit {0})))
        → Step start store round
        → ((after : Store)
            → machine.now store < start + poll_timeout
            → machine.now store + poll_interval ≤ machine.now after
            → Ends start (next after))
        → Ends start (elim round [ done answer ↦ some answer | again after ↦ next after ])
    round-Ends start store (done answer) next ending go_on = (answer, refl, ending)
    round-Ends start store (again after) next (early, slept) go_on = go_on after early slept

    -- So many rounds that the time of the wait is over before the last one.
    wait_loop-Ending :
        (rounds start : ℕ) (store : Store)
        → start + poll_timeout ≤ machine.now store + rounds * poll_interval
        → Ends start (wait_loop machine (suc rounds) start store)
    unfolding wait_loop
    wait_loop-Ending zero start store enough =
        round-Ends start store (poll_once machine start store) (wait_loop machine zero start)
          (poll_once-Step start store) (λ after early slept. absurd (omega arith))
    wait_loop-Ending (suc rounds) start store enough =
        round-Ends start store (poll_once machine start store)
          (wait_loop machine (suc rounds) start) (poll_once-Step start store)
          (λ after early slept. wait_loop-Ending rounds start after (omega arith))

    -- On a machine whose clock never runs backwards and whose sleeps take at least the time asked for,
    -- the wait ends within its 91 rounds. Its answer is explained by the last question to the service:
    -- success where that found it healthy, `service_absent` where it found none, the error where
    -- asking failed; and `not_healthy` only where it found the service starting or unhealthy and at
    -- least 180 seconds had gone by since the start, which is the time that the error reports.
    pub wait_for_healthy-Ending :
        (store : Store)
        → (answer : Store × Result PreflightError (Unit {0})) × (wait_for_healthy machine store
            ≡ some answer)
          × Ending (machine.now store) answer
    unfolding wait_for_healthy
    wait_for_healthy-Ending store = wait_loop-Ending 90 (machine.now store) store (omega arith)
