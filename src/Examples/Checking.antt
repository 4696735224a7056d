-- ===== src/Examples/Checking.antt =====
-- The theorems about the preflight check and about AWS failures at concrete inputs. The site is the
-- clock, the nodes of the database and the versions that are recorded there; its `neo4j` service is
-- healthy once four seconds have gone by.
use aws_net_hound.Base.{
  ◌≡◌, refl, ◌+◌, ℕ, true, none, some, List, [], ◌∷◌, String, map, codes, leb, Result, ok,
  if◌then◌else◌, arith,
}
use mathlib.Core.List.{Mem}
use aws_net_hound.Audit.Failure.{
  Cause, ec2, other_cause, describe_route_tables, access_denied, iam_action_for, classify_code,
  classify_describe_error, classify_cause, find_class, classify, into_failure,
}
use aws_net_hound.Audit.Failure.Classes.{Denies, classify-access_denied}
use aws_net_hound.Audit.Preflight.{
  Machine, Output, PreflightError, health_from_line, health_from_lines, health_from_compose_ps,
  wait_for_healthy, wait_loop, poll_once, service_health, compose_ps,
}
use aws_net_hound.Audit.Preflight.{healthy}
use aws_net_hound.Audit.Preflight.Printed.{
  Service, IsService, line_of, health_from_compose_ps-text_of,
}
use aws_net_hound.Base.Texts.Parts.{Lacks_of_all, text_of}
use aws_net_hound.Audit.Preflight.Waiting.{IsClock, Ending, wait_for_healthy-Ending}

pub record Site : Type 0 where
  pub clock : ℕ
  pub nodes : List String
  pub recorded : List ℕ
  pub merging : List ℕ

abbrev said : List ℕ → Output
said text = record { success = true; stdout = text; stderr = [] }

abbrev ps_at : ℕ → Output
ps_at clock =
    said
      (if leb 5000 clock then codes "neo4j|healthy|running\n" else codes "neo4j|Starting|running\n")

-- Asking takes 10 milliseconds, and a sleep one more than it should.
abbrev pub machine : Machine Site
machine = record {
  now = λ site. site.clock;
  compose_version = λ site. (site, ok (said []));
  compose_ps = λ site. (record site { clock = site.clock + 10 }, ok (ps_at site.clock));
  sleep = λ ms site. record site { clock = site.clock + ms + 1 };
}

pub clock : IsClock machine
clock = record { sleeps = λ ms site. omega arith; runs = λ site. omega arith }

abbrev pub morning : Site
morning = record { clock = 1000; nodes = []; recorded = []; merging = [] }

-- Healthy at the third question.
waited : wait_for_healthy machine morning ≡ some (record morning { clock = 5032 }, ok tt)
unfolding wait_for_healthy wait_loop poll_once service_health compose_ps health_from_compose_ps
    health_from_lines health_from_line
waited = refl

wait_for_healthy-Ending_example :
    (answer : Site × Result PreflightError (Unit {0})) × (wait_for_healthy machine morning
      ≡ some answer)
    × Ending machine 1000 answer
wait_for_healthy-Ending_example = wait_for_healthy-Ending machine clock morning

-- Another service, and the one that the check looks for.
abbrev proxy : Service
proxy = record { name = codes "proxy"; health = codes "unhealthy"; state = codes "running" }

abbrev neo4j : Service
neo4j = record { name = codes "neo4j"; health = codes "Healthy"; state = codes "running" }

proxy-IsService : IsService proxy
proxy-IsService = record {
  line = (Lacks_of_all 10 (line_of proxy) refl, Lacks_of_all 13 (line_of proxy) refl);
  trimmed = refl;
  plain_name = Lacks_of_all b'|' proxy.name refl;
  plain_health = Lacks_of_all b'|' proxy.health refl;
}

neo4j-IsService : IsService neo4j
neo4j-IsService = record {
  line = (Lacks_of_all 10 (line_of neo4j) refl, Lacks_of_all 13 (line_of neo4j) refl);
  trimmed = refl;
  plain_name = Lacks_of_all b'|' neo4j.name refl;
  plain_health = Lacks_of_all b'|' neo4j.health refl;
}

health_from_compose_ps-text_of_example :
    health_from_compose_ps (text_of (map line_of (proxy ∷ neo4j ∷ []))) ≡ ok healthy
health_from_compose_ps-text_of_example =
    health_from_compose_ps-text_of (proxy ∷ neo4j ∷ []) (proxy-IsService, (neo4j-IsService, tt))

abbrev refused_call : List Cause
refused_call = other_cause ∷ ec2 describe_route_tables (some "UnauthorizedOperation") ∷ []

refused :
    classify none "DescribeRouteTables" refused_call
    ≡ access_denied "DescribeRouteTables" "ec2:DescribeRouteTables" refused_call
unfolding classify find_class classify_cause classify_describe_error classify_code into_failure
    iam_action_for
refused = refl

classify-access_denied_example :
    (◌≡◌ {A = String} "DescribeRouteTables" "DescribeRouteTables")
    × (◌≡◌ {A = String} "ec2:DescribeRouteTables" (iam_action_for "DescribeRouteTables"))
    × (refused_call ≡ refused_call)
    × ((cause : Cause) × Mem cause refused_call × Denies "DescribeRouteTables" cause)
classify-access_denied_example =
    classify-access_denied none "DescribeRouteTables" refused_call refused
