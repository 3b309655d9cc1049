-- ===== src/Catalog/Service/Once.antt =====
-- The service answers an operation once and for all.
use Prim.Native.String.{String}
use text.Mathlib.Text.{◌==◌ as str_eq}
use text.Mathlib.TextEquality.{eq_iff}
use vk_turn_proxy_go.Base.{
  ℕ, ◌≡◌, refl, sym, ap, subst, fun_ext, ◌∙◌, Bool, true, false, List, [], ◌∷◌, Option, none, some,
  arith, if◌then◌else◌,
}
use vk_turn_proxy_go.Base.TextDict.{lookup, lookup-insert}
use vk_turn_proxy_go.Catalog.Types.{CatalogSnapshot}
use vk_turn_proxy_go.Catalog.Messages.{ArtifactIssueRequest, ArtifactIssueResponse}
use vk_turn_proxy_go.Catalog.Clone.{clone_snapshot, clone_snapshot_id}
use vk_turn_proxy_go.Catalog.Library.{Library}
use vk_turn_proxy_go.Catalog.Service.{
  Service, ServiceOptions, Request, new_service, snapshot_of, refresh, authorize, record_audit,
  count_authorization, authorize_counts,
}
use vk_turn_proxy_go.Catalog.Service.Issue.{
  Outcome, replayed, not_found, not_ready, issued, decide, settle, settled, issue_locked,
}
use vk_turn_proxy_go.Catalog.Service.Handlers.{catalog_locked}
use vk_turn_proxy_go.Catalog.Service.Sections.{
  Section, authorizing, reading, issuing, recording, response_of, or_first, outcome_after,
  run_section, run_sections, answer_of, first_answer,
}

or_first-none : (o : Option ArtifactIssueResponse) → o ≡ or_first o none
or_first-none none = refl
or_first-none (some r) = refl

or_first_assoc :
    (a b c : Option ArtifactIssueResponse) → or_first (or_first a b) c ≡ or_first a (or_first b c)
or_first_assoc none b c = refl
or_first_assoc (some r) b c = refl

or_first-if_none :
    (b : Bool) (a o p : Option ArtifactIssueResponse)
    → (b ≡ true → o ≡ none)
    → p ≡ o
    → (if b then or_first a p else p) ≡ or_first o (if b then a else none)
or_first-if_none true a o p h e = rw (e, h refl) (sym (or_first-none a))
or_first-if_none false a o p h e = e ∙ or_first-none o

or_first-if_some :
    (b : Bool) (a o : Option ArtifactIssueResponse) (r : ArtifactIssueResponse)
    → (b ≡ true → o ≡ some r)
    → (if b then o else o) ≡ or_first o (if b then a else none)
or_first-if_some true a o r h = rw (h refl) refl
or_first-if_some false a o r h = or_first-none o

module _ (lib : Library) where
  snapshot_of-snapshot_of :
      (p : Option (ℕ → CatalogSnapshot)) (kept : CatalogSnapshot) (n now : ℕ)
      → snapshot_of p (snapshot_of p kept n) now ≡ snapshot_of p kept now
  unfolding snapshot_of
  snapshot_of-snapshot_of none kept n now = refl
  snapshot_of-snapshot_of (some f) kept n now = refl

  abbrev pub catalog_of : Service → ℕ → CatalogSnapshot
  catalog_of s now = snapshot_of s.snapshot_provider s.snapshot now

  count-catalog_of :
      (status : String) (s : Service) (now : ℕ)
      → catalog_of (count_authorization status s) now ≡ catalog_of s now
  unfolding count_authorization
  count-catalog_of status s now = refl

  settle-catalog_of :
      (id : String) (o : Outcome) (s : Service) (now : ℕ)
      → catalog_of (settle id o s) now ≡ catalog_of s now
  unfolding settle
  settle-catalog_of id (replayed r) s now = refl
  settle-catalog_of id not_found s now = refl
  settle-catalog_of id (not_ready a b r) s now = refl
  settle-catalog_of id (issued a b r) s now = refl

  settled-catalog_of :
      (o : Option ArtifactIssueResponse) (id : String) (fresh : Outcome) (s t : Service) (now : ℕ)
      → catalog_of t now ≡ catalog_of s now
      → catalog_of (settled o id fresh s t).1 now ≡ catalog_of s now
  settled-catalog_of none id fresh s t now h = settle-catalog_of id fresh t now ∙ h
  settled-catalog_of (some r) id fresh s t now h = settle-catalog_of id (replayed r) s now

  settle-issues :
      (id j : String) (o : Outcome) (s : Service)
      → lookup j (settle id o s).issues
        ≡ (if str_eq id j then or_first (response_of o) (lookup j s.issues) else lookup j s.issues)
  unfolding settle
  settle-issues id j (replayed r) s = ground arith
  settle-issues id j not_found s = ground arith
  settle-issues id j (not_ready a b r) s = ground arith
  settle-issues id j (issued a b r) s = lookup-insert id j r s.issues ∙ ground arith

  authorize-catalog_of :
      (r : Request) (scope : String) (s : Service) (now : ℕ)
      → catalog_of (authorize r scope s).1 now ≡ catalog_of s now
  authorize-catalog_of r scope s now =
      let (status, e) = authorize_counts r scope s in rw e (count-catalog_of status s now)

  -- No step changes the catalog.
  run_section-catalog_of :
      (x : Section) (s : Service) (now : ℕ)
      → catalog_of (run_section lib x s) now ≡ catalog_of s now
  unfolding run_section catalog_locked refresh record_audit issue_locked
  run_section-catalog_of (authorizing r scope) s now = authorize-catalog_of r scope s now
  run_section-catalog_of (reading n) s now =
      snapshot_of-snapshot_of s.snapshot_provider s.snapshot n now
  run_section-catalog_of (issuing clock n req) s now =
      settled-catalog_of (lookup req.operation_id s.issues) req.operation_id
        (decide lib clock n (refresh n s).snapshot req) s (refresh n s) now
        (snapshot_of-snapshot_of s.snapshot_provider s.snapshot n now)
  run_section-catalog_of (recording n entry) s now = refl

  -- The operation's own answer is kept, and those of the other operations.
  settled-issues :
      (id j : String) (o : Option ArtifactIssueResponse) (fresh : Outcome) (s t : Service)
      → lookup id s.issues ≡ o
      → t.issues ≡ s.issues
      → lookup j (settled o id fresh s t).1.issues
        ≡ or_first (lookup j s.issues) (if str_eq id j then response_of fresh else none)
  settled-issues id j none fresh s t h e =
      settle-issues id j fresh t
      ∙ or_first-if_none (str_eq id j) _ _ _
          (λ b. subst (λ x. lookup x s.issues ≡ none) ((eq_iff id j).0 b) h) (ap (lookup j) e)
  settled-issues id j (some r) fresh s t h e =
      settle-issues id j (replayed r) s
      ∙ or_first-if_some (str_eq id j) _ _ r
          (λ b. subst (λ x. lookup x s.issues ≡ some r) ((eq_iff id j).0 b) h)

  count-issues :
      (j status : String) (s : Service)
      → lookup j (count_authorization status s).issues ≡ or_first (lookup j s.issues) none
  unfolding count_authorization
  count-issues j status s = or_first-none _

  run_section-issues :
      (j : String) (x : Section) (s : Service)
      → lookup j (run_section lib x s).issues
        ≡ or_first (lookup j s.issues) (answer_of lib (catalog_of s) j x)
  unfolding run_section catalog_locked refresh record_audit issue_locked
  run_section-issues j (authorizing r scope) s =
      let (status, e) = authorize_counts r scope s in rw e (count-issues j status s)
  run_section-issues j (reading n) s = or_first-none _
  run_section-issues j (issuing clock n req) s =
      settled-issues req.operation_id j (lookup req.operation_id s.issues)
        (decide lib clock n (refresh n s).snapshot req) s (refresh n s) refl refl
  run_section-issues j (recording n entry) s = or_first-none _

  pub run_sections-issues :
      (j : String) (xs : List Section) (s : Service)
      → lookup j (run_sections lib xs s).issues
        ≡ or_first (lookup j s.issues) (first_answer lib (catalog_of s) j xs)
  unfolding run_sections first_answer
  run_sections-issues j [] s = or_first-none _
  run_sections-issues j (x ∷ xs) s =
      let same : catalog_of (run_section lib x s) ≡ catalog_of s =
        fun_ext (run_section-catalog_of x s) in
      run_sections-issues j xs (run_section lib x s)
      ∙ (ap (λ c. or_first (lookup j (run_section lib x s).issues) (first_answer lib c j xs)) same
          ∙ (ap (λ o. or_first o (first_answer lib (catalog_of s) j xs)) (run_section-issues j x s)
              ∙ or_first_assoc (lookup j s.issues) _ _))

  run_sections-catalog_of :
      (xs : List Section) (s : Service) (now : ℕ)
      → catalog_of (run_sections lib xs s) now ≡ catalog_of s now
  unfolding run_sections
  run_sections-catalog_of [] s now = refl
  run_sections-catalog_of (x ∷ xs) s now =
      run_sections-catalog_of xs (run_section lib x s) now ∙ run_section-catalog_of x s now

  new_service-catalog_of :
      (opts : ServiceOptions) (start now : ℕ)
      → catalog_of (new_service opts start) now
        ≡ snapshot_of opts.snapshot_provider opts.snapshot now
  unfolding new_service
  new_service-catalog_of opts start now =
      snapshot_of-snapshot_of opts.snapshot_provider (clone_snapshot opts.snapshot) start now
      ∙ ap (λ k. snapshot_of opts.snapshot_provider k now) (clone_snapshot_id opts.snapshot)

  settled-outcome_after :
      (o : Option ArtifactIssueResponse) (id : String) (fresh : Outcome) (s t : Service)
      → (settled o id fresh s t).0 ≡ outcome_after o fresh
  settled-outcome_after none id fresh s t = refl
  settled-outcome_after (some r) id fresh s t = refl

  issue_locked-catalog_of :
      (clock now : ℕ) (req : ArtifactIssueRequest) (s : Service)
      → (issue_locked lib clock now req s).0
        ≡ outcome_after
            (lookup req.operation_id s.issues)
            (decide lib clock now (catalog_of s now) req)
  unfolding issue_locked refresh
  issue_locked-catalog_of clock now req s =
      settled-outcome_after (lookup req.operation_id s.issues) req.operation_id _ s (refresh now s)

  -- However the steps of requests follow one another on a new service, a request to issue comes to the
  -- first answer to its operation, and, where no step gave one, to a decision on the catalog of
  -- that instant alone.
  pub issue_locked-first_answer :
      (opts : ServiceOptions) (start : ℕ) (xs : List Section) (clock now : ℕ)
      (req : ArtifactIssueRequest)
      → (issue_locked lib clock now req (run_sections lib xs (new_service opts start))).0 ≡ (
          let catalog = snapshot_of opts.snapshot_provider opts.snapshot in
          outcome_after
            (first_answer lib catalog req.operation_id xs)
            (decide lib clock now (catalog now) req))
  unfolding new_service lookup
  issue_locked-first_answer opts start xs clock now req =
      let s = new_service opts start in
      let catalog = snapshot_of opts.snapshot_provider opts.snapshot in
      let id = req.operation_id in
      let same : catalog_of s ≡ catalog = fun_ext (new_service-catalog_of opts start) in
      let kept : lookup id (run_sections lib xs s).issues ≡ first_answer lib catalog id xs =
        run_sections-issues id xs s ∙ ap (λ c. first_answer lib c id xs) same in
      let instant = run_sections-catalog_of xs s now ∙ new_service-catalog_of opts start now in
      issue_locked-catalog_of clock now req (run_sections lib xs s)
      ∙ (ap
            (λ o.
              outcome_after o (decide lib clock now (catalog_of (run_sections lib xs s) now) req))
            kept
          ∙ ap (λ c. outcome_after (first_answer lib catalog id xs) (decide lib clock now c req))
              instant)
