-- ===== src/Session/Runtime/Laws.antt =====
-- How `Run` ends when it does not get to the supervised session.
use Prim.Native.String.{String}
use vk_turn_proxy_go.Base.{◌≡◌, refl, List, [], ◌∷◌, ◌++◌, Option, some, Bool, true, false}
use vk_turn_proxy_go.Base.Result.{Result, ok, err, ◌>>=◌, ◌>>◌, guard}
use vk_turn_proxy_go.RunStage.{
  policy_validate, provider_resolve, local_bind, text, Stage, GoError, plain, from_error, wrap,
  stage_text,
}
use vk_turn_proxy_go.RunStage.Laws.{or_stage, from_error-wrap}
use vk_turn_proxy_go.Config.{ClientConfig, validate_client}
use vk_turn_proxy_go.Session.Plan.{Dependencies, SessionPlan, lift_config, build_session_plan}
use vk_turn_proxy_go.Session.Supervisor.{Report, session_failure, transport_failure, emit}
use vk_turn_proxy_go.Session.Runtime.{
  World, Step, fail_at, or_fail, prepare, run, with_text, apply_turn_overrides,
}

-- What holds of a step: it goes on, or it ends `Run` with reports and an error of which `P` holds.
data Ends {ℓ} (P : List Report × Option GoError → Type 0) {A : Type ℓ} : Step A → Type ℓ where
  goes_on : {a : A} → Ends P (ok a)
  ends : {x : List Report × Option GoError} → P x → Ends P (err x)

of_ends {ℓ} :
    {P : List Report × Option GoError → Type 0} {A : Type ℓ} {x : List Report × Option GoError}
    → Ends P {A = A} (err x)
    → P x
of_ends (ends h) = h

after_fail {ℓ κ} :
    (P : List Report × Option GoError → Type 0) {A : Type ℓ} {B : Type κ} (s : Stage)
    (rs : List Report) (r : Result GoError A) (f : A → Step B)
    → ((e : GoError) → r ≡ err e → P (fail_at s rs e))
    → ((a : A) → r ≡ ok a → Ends P (f a))
    → Ends P (or_fail s rs r >>= f)
unfolding or_fail
after_fail P s rs (ok a) f h k = k a refl
after_fail P s rs (err e) f h k = ends (h e refl)

after_guard {ℓ} :
    (P : List Report × Option GoError → Type 0) {B : Type ℓ} (b : Bool)
    (x : List Report × Option GoError) (f : Unit {0} → Step B)
    → (b ≡ false → P x)
    → (b ≡ true → Ends P (f tt))
    → Ends P (guard b x >>= f)
after_guard P true x f h k = k refl
after_guard P false x f h k = ends (h refl)

-- The failure that is reported at a stage, after what was reported before.
abbrev pub reported : Stage → List Report → List Report
reported s before =
    before
    ++ session_failure (stage_text s) true ∷ emit "runtime_failure" (stage_text s) "failed" ∷ []

abbrev pub started : Report
started = emit "runtime_startup" "bootstrap" "started"

abbrev pub bound_reports : List Report
bound_reports =
    started
    ∷ emit "provider_resolution" "provider_resolve" "succeeded"
    ∷ transport_failure "local_bind"
    ∷ []

module _ {Ip S : Type 0} (w : World Ip S) (c : ClientConfig) (deps : Dependencies) where
  abbrev pub config_checked : Result GoError (Unit {0})
  config_checked = with_text w.describe (lift_config (validate_client c))

  abbrev pub planned : Result GoError (SessionPlan Ip)
  planned = with_text w.describe (build_session_plan w.parse_ip c deps)

  -- The steps up to the plan, and up to the answer of the provider, are done.
  abbrev pub IsPlanned : SessionPlan Ip → Type 0
  IsPlanned p = (w.has_registry ≡ true) × (config_checked ≡ ok tt) × (planned ≡ ok p)

  abbrev pub IsResolved : SessionPlan Ip → String → Type 0
  IsResolved p address =
      IsPlanned p × (w.get_provider c.provider ≡ ok tt) × (w.resolve c.link ≡ ok address)

  -- The first step that fails, its stage, what is reported, and its error.
  pub data FailsAt : Stage → List Report → GoError → Type 0 where
    no_registry :
        w.has_registry ≡ false
        → FailsAt provider_resolve [] (plain (text "provider registry is required"))
    config_refused :
        (e : GoError)
        → w.has_registry ≡ true
        → config_checked ≡ err e
        → FailsAt policy_validate (reported policy_validate []) e
    plan_refused :
        (e : GoError)
        → w.has_registry ≡ true
        → config_checked ≡ ok tt
        → planned ≡ err e
        → FailsAt policy_validate (reported policy_validate []) e
    provider_unknown :
        (e : GoError) (p : SessionPlan Ip)
        → IsPlanned p
        → w.get_provider c.provider ≡ err e
        → FailsAt provider_resolve (reported provider_resolve []) e
    unresolved :
        (e : GoError) (p : SessionPlan Ip)
        → IsPlanned p
        → w.get_provider c.provider ≡ ok tt
        → w.resolve c.link ≡ err e
        → FailsAt provider_resolve (reported provider_resolve (started ∷ [])) e
    address_refused :
        (e : GoError) (p : SessionPlan Ip) (address : String)
        → IsResolved p address
        → apply_turn_overrides w address c.turn_server c.turn_port ≡ err e
        → FailsAt provider_resolve (reported provider_resolve (started ∷ [])) e
    unbound :
        (e : GoError) (p : SessionPlan Ip) (address turn : String)
        → IsResolved p address
        → apply_turn_overrides w address c.turn_server c.turn_port ≡ ok turn
        → w.bind p c.listen_addr ≡ err e
        → FailsAt local_bind (reported local_bind bound_reports) e

  -- The error carries the stage of the step that failed, or the one that the step's error carries.
  pub data Fails (x : List Report × Option GoError) : Type 0 where
    fails :
        (s : Stage) (cause e : GoError)
        → FailsAt s (x.0) cause
        → x.1 ≡ some e
        → from_error e ≡ some (or_stage (from_error cause) s)
        → Fails x

  Fails-wrap :
      (s : Stage) (rs : List Report) (cause : GoError)
      → FailsAt s rs cause
      → Fails (rs, wrap s (some cause))
  Fails-wrap s rs cause f = let (e, p, q, r) = from_error-wrap s s cause in fails s cause e f p q

  -- The steps after the answer of the provider, and those after the plan.
  abbrev from_address : SessionPlan Ip → String → Step (SessionPlan Ip × (String × S))
  from_address p address = do
    turn ←
        or_fail provider_resolve (started ∷ [])
          (apply_turn_overrides w address c.turn_server c.turn_port)
    ingress ← or_fail local_bind bound_reports (w.bind p c.listen_addr)
    ok (p, (turn, ingress))

  abbrev from_plan : SessionPlan Ip → Step (SessionPlan Ip × (String × S))
  from_plan p = do
    or_fail provider_resolve [] (w.get_provider c.provider)
    address ← or_fail provider_resolve (started ∷ []) (w.resolve c.link)
    from_address p address

  resolved-Ends :
      (p : SessionPlan Ip) (address : String)
      → IsResolved p address
      → Ends Fails (from_address p address)
  unfolding fail_at
  resolved-Ends p address i =
      after_fail Fails provider_resolve (started ∷ [])
        (apply_turn_overrides w address c.turn_server c.turn_port) _
        (λ e h. Fails-wrap _ _ _ (address_refused e p address i h))
        (λ turn h4.
          after_fail Fails local_bind bound_reports (w.bind p c.listen_addr)
            (λ ingress. ok (p, (turn, ingress)))
            (λ e h. Fails-wrap _ _ _ (unbound e p address turn i h4 h)) (λ _ _. goes_on))

  planned-Ends : (p : SessionPlan Ip) → IsPlanned p → Ends Fails (from_plan p)
  unfolding fail_at
  planned-Ends p i =
      after_fail Fails provider_resolve [] (w.get_provider c.provider) _
        (λ e h. Fails-wrap _ _ _ (provider_unknown e p i h))
        (λ _ h2.
          after_fail Fails provider_resolve (started ∷ []) (w.resolve c.link) _
            (λ e h. Fails-wrap _ _ _ (unresolved e p i h2 h))
            (λ address h3. resolved-Ends p address (i, h2, h3)))

  prepare-Ends : Ends Fails (prepare w c deps)
  unfolding prepare fail_at
  prepare-Ends =
      after_guard Fails w.has_registry _ _ (λ h. Fails-wrap _ _ _ (no_registry h))
        (λ g.
          after_fail Fails policy_validate [] config_checked _
            (λ e h. Fails-wrap _ _ _ (config_refused e g h))
            (λ _ h0.
              after_fail Fails policy_validate [] planned _
                (λ e h. Fails-wrap _ _ _ (plan_refused e g h0 h))
                (λ p h1. planned-Ends p (g, h0, h1))))

  -- A run that does not get to its supervised session ends at the first step that fails, with the
  -- reports of its stage and an error that carries this stage, unless the step's own error carries one:
  -- provider_resolve where there is no registry, no such provider, no answer for the link or no TURN
  -- address, policy_validate where the configuration or the plan is refused, and local_bind where the
  -- ingress is not bound.
  pub run-Fails :
      (rs : List Report) (e : Option GoError)
      → prepare w c deps ≡ err (rs, e)
      → (run w c deps ≡ (rs, e)) × Fails (rs, e)
  unfolding run
  run-Fails rs e h = let p = rw h at prepare-Ends in (rw (h, run), of_ends p)
