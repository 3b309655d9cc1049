-- ===== src/Catalog/Examples.antt =====
-- Requests to a service with one offer.
use Prim.Native.String.{String}
use vk_turn_proxy_go.Base.{
  ◌+◌, ◌*◌, ◌≤◌, ◌<◌, ◌≡◌, refl, ◌↔◌, true, List, [], ◌∷◌, none, some, arith,
}
use vk_turn_proxy_go.Base.Text.{HasText, is_space, is_blank, trim_space, cut_prefix}
use vk_turn_proxy_go.Base.Result.{ok}
use vk_turn_proxy_go.Catalog.Types.{CatalogSnapshot, auth_scope_artifact_issue}
use vk_turn_proxy_go.Catalog.Validation.{attach_integrity, or_clock}
use vk_turn_proxy_go.Catalog.Validation.Snapshot.{validate_snapshot}
use vk_turn_proxy_go.Catalog.Validation.Laws.{IsAcceptedSnapshot, validate_snapshot_iff}
use vk_turn_proxy_go.Catalog.Validation.Readiness.{IsReady}
use vk_turn_proxy_go.Catalog.Validation.Integrity.{validate_snapshot-attach_integrity}
use vk_turn_proxy_go.Catalog.Service.{new_service, snapshot_of, authorize}
use vk_turn_proxy_go.Catalog.Offers.{IsOfferOf}
use vk_turn_proxy_go.Catalog.Service.Issue.{issued, decide, issue_locked}
use vk_turn_proxy_go.Catalog.Service.Handlers.{artifact_issue_path, serve, handle_issue_request}
use vk_turn_proxy_go.Catalog.Service.Sections.{
  Section, reading, authorizing, issuing, run_sections, first_answer, outcome_after,
}
use vk_turn_proxy_go.Catalog.Service.Ttl.{decide-issued, decide-issued_le}
use vk_turn_proxy_go.Catalog.Service.Once.{issue_locked-first_answer}
use vk_turn_proxy_go.Catalog.Service.Guard.{IsGranted, IsLogged, scope_of, serve-IsGranted}
use vk_turn_proxy_go.Catalog.Service.Retry.{answered, handle_issue_request-retry}
use vk_turn_proxy_go.Catalog.Samples.{
  library, offer, source, snapshot, options, service_options, issue_request, retry_request, request,
  times, later, response,
}

accepted : validate_snapshot library 5 snapshot options ≡ ok tt
unfolding validate_snapshot is_space trim_space is_blank
accepted = refl

validate_snapshot_iff_example :
    (validate_snapshot library 5 snapshot options ≡ ok tt)
    ↔ IsAcceptedSnapshot library 5 snapshot options
validate_snapshot_iff_example = validate_snapshot_iff library 5 snapshot options

attached : (t : CatalogSnapshot) × (attach_integrity library snapshot "ops" ≡ some t)
unfolding attach_integrity is_space
attached = (_, refl)

hexadecimal : (body : String) → HasText (library.sha256_hex 32 body)
unfolding is_space is_blank
hexadecimal body = refl

validate_snapshot-attach_integrity_example :
    validate_snapshot library 5 attached.0 (record options { require_signed = true }) ≡ ok tt
validate_snapshot-attach_integrity_example =
    validate_snapshot-attach_integrity library hexadecimal 5 snapshot attached.0 "ops" options
      accepted attached.1

decided : decide library 5 200000000000 snapshot issue_request ≡ issued source offer response
unfolding decide is_space
decided = refl

decide-issued_example :
    IsOfferOf "managed-turn" "turn-handoff" snapshot.sources (source, offer)
    × IsReady (or_clock 5 200000000000) source offer
    × (200000000000 < response.expires_at)
decide-issued_example =
    decide-issued library 5 200000000000 snapshot issue_request source offer response decided

decide-issued_le_example : response.expires_at ≤ 200000000000 + 300 * 1000000000
decide-issued_le_example =
    decide-issued_le library 5 200000000000 300 snapshot issue_request source offer response decided
      refl (omega arith) (omega arith)

-- Another request of the operation has been answered between.
abbrev steps : List Section
steps =
    authorizing request auth_scope_artifact_issue
    ∷ reading 1
    ∷ issuing 5 200000000000 issue_request
    ∷ []

issue_locked-first_answer_example :
    (issue_locked library 5 800000000000 retry_request
      (run_sections library steps (new_service service_options 1))).0
    ≡ outcome_after
        (first_answer library (snapshot_of none snapshot) "op-1" steps)
        (decide library 5 800000000000 (snapshot_of none snapshot 800000000000) retry_request)
issue_locked-first_answer_example =
    issue_locked-first_answer library service_options 1 steps 5 800000000000 retry_request

granted_reply :
    (serve library artifact_issue_path times request (new_service service_options 1)).0.status ≡ 200
unfolding serve new_service is_space cut_prefix
granted_reply = refl

serve-IsGranted_example :
    IsGranted (scope_of artifact_issue_path) service_options.authorizer request
    × IsLogged
        (scope_of artifact_issue_path)
        times
        (new_service service_options 1)
        (serve library artifact_issue_path times request (new_service service_options 1)).1
unfolding new_service
serve-IsGranted_example =
    serve-IsGranted library artifact_issue_path times request (new_service service_options 1)
      granted_reply

first_reply :
    (handle_issue_request library times request issue_request (new_service service_options 1)).0
    ≡ answered response
unfolding handle_issue_request new_service is_space cut_prefix
first_reply = refl

still_granted :
    (authorize request auth_scope_artifact_issue (
      run_sections library steps
        (handle_issue_request library times request issue_request
          (new_service service_options 1)).1)).0
    ≡ true
unfolding handle_issue_request new_service is_space run_sections authorize cut_prefix
still_granted = refl

handle_issue_request-retry_example :
    (handle_issue_request library later request retry_request (
      run_sections library steps
        (handle_issue_request library times request issue_request
          (new_service service_options 1)).1)).0
    ≡ answered response
handle_issue_request-retry_example =
    handle_issue_request-retry library times later request request issue_request retry_request
      (new_service service_options 1) response steps first_reply refl refl still_granted
