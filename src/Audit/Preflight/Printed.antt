-- ===== src/Audit/Preflight/Printed.antt =====
-- crates/audit-local/src/preflight.rs: `health_from_compose_ps` on what `docker compose ps` prints with
-- the template of the check.
use aws_net_hound.Base.{
  ◌≡◌, refl, ap, ◌∙◌, Bool, true, false, not, Option, none, some, List, [], ◌∷◌, ◌++◌, map, ℕ,
  find?, is_empty, codes, All, Result, ok, if◌then◌else◌,
}
use aws_net_hound.Base.Texts.{trim, split, same_text}
use aws_net_hound.Base.Texts.Parts.{Lacks, IsLine, split-append, text_of, lines-text_of}
use aws_net_hound.Audit.Preflight.{
  ServiceHealth, absent, PreflightError, health_of, health_from_line, health_from_lines,
  health_from_compose_ps,
}

pub record Service : Type 0 where
  pub name : List ℕ
  pub health : List ℕ
  pub state : List ℕ

-- The template `{{.Service}}|{{.Health}}|{{.State}}`.
abbrev pub line_of : Service → List ℕ
line_of service = service.name ++ b'|' ∷ (service.health ++ b'|' ∷ service.state)

-- A service whose line is one line without white space around it, and whose name and health have no bar.
pub record IsService (service : Service) : Type 0 where
  pub line : IsLine (line_of service)
  pub trimmed : trim (line_of service) ≡ line_of service
  pub plain_name : Lacks b'|' service.name
  pub plain_health : Lacks b'|' service.health

abbrev pub is_neo4j : Service → Bool
is_neo4j service = same_text service.name (codes "neo4j")

-- What the check makes of the service that it looks for.
abbrev pub health_found : Option Service → Result PreflightError ServiceHealth
health_found none = ok absent
health_found (some service) = health_of (line_of service) service.health

filled : (s t : List ℕ) → is_empty (s ++ b'|' ∷ t) ≡ false
filled [] t = refl
filled (c ∷ s) t = refl

split-line_of :
    (service : Service)
    → IsService service
    → split b'|' (line_of service) ≡ service.name ∷ service.health ∷ split b'|' service.state
split-line_of service h =
    split-append b'|' service.name _ h.plain_name
    ∙ ap (λ rest. service.name ∷ rest)
        (split-append b'|' service.health service.state h.plain_health)

lines_of_services :
    (services : List Service) → All IsService services → All IsLine (map line_of services)
lines_of_services [] h = tt
lines_of_services (service ∷ services) (h, hs) = (h.line, lines_of_services services hs)

health_from_lines-printed :
    (services : List Service)
    → All IsService services
    → health_from_lines (map line_of services) ≡ health_found (find? is_neo4j services)
unfolding health_from_lines health_from_line
health_from_lines-printed [] h = refl
health_from_lines-printed (service ∷ services) (h, hs) =
    rw
      (
        h.trimmed,
        filled service.name (service.health ++ b'|' ∷ service.state),
        split-line_of service h,
      )
      (go (is_neo4j service) (health_from_lines-printed services hs))
  where
    go :
        (b : Bool)
        → health_from_lines (map line_of services) ≡ health_found (find? is_neo4j services)
        → (if not b
            then health_from_lines (map line_of services)
            else health_of (line_of service) service.health)
          ≡ health_found (if b then some service else find? is_neo4j services)
    go true later = refl
    go false later = later

-- Read back from the printed list of services, each on one line of its own with no white space around it
-- and no bar in its name and health, the health is that of the first service called neo4j, or absent
-- where there is none.
pub health_from_compose_ps-text_of :
    (services : List Service)
    → All IsService services
    → health_from_compose_ps (text_of (map line_of services))
      ≡ health_found (find? is_neo4j services)
unfolding health_from_compose_ps
health_from_compose_ps-text_of services h =
    ap health_from_lines (lines-text_of (map line_of services) (lines_of_services services h))
    ∙ health_from_lines-printed services h
