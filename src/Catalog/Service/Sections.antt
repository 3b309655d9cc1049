-- ===== src/Catalog/Service/Sections.antt =====
-- internal/vpscatalog/service.go: the steps of the service, each with the mutex held, in any order, and
-- the specification of the answers that it keeps. A handler goes through several steps, and those of
-- other requests may come between.
use Prim.Native.String.{String}
use text.Mathlib.Text.{◌==◌ as str_eq}
use vk_turn_proxy_go.Base.{ℕ, List, [], ◌∷◌, Option, none, some, if◌then◌else◌}
use vk_turn_proxy_go.Catalog.Types.{CatalogSnapshot}
use vk_turn_proxy_go.Catalog.Messages.{ArtifactIssueRequest, ArtifactIssueResponse, AuditRecord}
use vk_turn_proxy_go.Catalog.Library.{Library}
use vk_turn_proxy_go.Catalog.Service.{Service, Request, authorize, record_audit}
use vk_turn_proxy_go.Catalog.Service.Issue.{Outcome, replayed, issued, decide, issue_locked}
use vk_turn_proxy_go.Catalog.Service.Handlers.{catalog_locked}

-- A step that holds the mutex of the service.
pub data Section : Type 0 where
  authorizing : Request → (scope : String) → Section
  reading : (now : ℕ) → Section
  issuing : (clock now : ℕ) → ArtifactIssueRequest → Section
  recording : (now : ℕ) → AuditRecord → Section

-- The answer of an outcome that is one.
abbrev pub response_of : Outcome → Option ArtifactIssueResponse
response_of (issued source offer response) = some response
response_of o = none

abbrev pub or_first :
    Option ArtifactIssueResponse → Option ArtifactIssueResponse → Option ArtifactIssueResponse
or_first (some r) o = some r
or_first none o = o

-- A first answer is given again, and without one a request is decided.
abbrev pub outcome_after : Option ArtifactIssueResponse → Outcome → Outcome
outcome_after (some r) o = replayed r
outcome_after none o = o

module _ (lib : Library) where
  unfoldable pub run_section : Section → Service → Service
  unfolding authorize catalog_locked issue_locked record_audit
  run_section (authorizing r scope) s = (authorize r scope s).1
  run_section (reading now) s = catalog_locked now s
  run_section (issuing clock now req) s = (issue_locked lib clock now req s).1
  run_section (recording now entry) s = record_audit now entry s

  unfoldable pub run_sections : List Section → Service → Service
  unfolding run_section
  run_sections [] s = s
  run_sections (x ∷ xs) s = run_sections xs (run_section x s)

  -- What a step answers to an operation, where nothing was answered before.
  abbrev pub answer_of : (ℕ → CatalogSnapshot) → String → Section → Option ArtifactIssueResponse
  answer_of catalog id (issuing clock now req) =
      if str_eq req.operation_id id
      then response_of (decide lib clock now (catalog now) req)
      else none
  answer_of catalog id x = none

  -- The specification: the first answer to an operation, on a catalog that each instant has.
  unfoldable pub first_answer :
      (ℕ → CatalogSnapshot) → String → List Section → Option ArtifactIssueResponse
  first_answer catalog id [] = none
  first_answer catalog id (x ∷ xs) = or_first (answer_of catalog id x) (first_answer catalog id xs)
