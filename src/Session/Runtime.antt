-- ===== src/Session/Runtime.antt =====
-- internal/session/runtime.go and policy.go: what `Run` does before and after the supervised
-- session. The provider, the socket of the ingress, `net.SplitHostPort`, `net.JoinHostPort` and the
-- supervised session are arguments; `describe` gives the text of an error of the plan. The reports
-- are the calls of the two observers, of which the metadata is left out.
pub mod Laws
mod Examples
use Prim.Native.String.{String}
use package.text.Mathlib.Text.{◌==◌ as str_eq}
use vk_turn_proxy_go.Base.{
  Bool, true, false, List, [], ◌∷◌, ◌++◌, Option, none, some, if◌then◌else◌,
}
use vk_turn_proxy_go.Base.Text.{trim_space}
use vk_turn_proxy_go.Base.Result.{Result, ok, err, ◌>>=◌, ◌>>◌, guard}
use vk_turn_proxy_go.RunStage.{
  Stage, policy_validate, provider_resolve, local_bind, stage_text, Note, text, GoError, plain,
  wrapped, wrap,
}
use vk_turn_proxy_go.Config.{ClientConfig, validate_client}
use vk_turn_proxy_go.Session.Plan.{
  SessionPlan, Dependencies, PlanError, lift_config, build_session_plan,
}
use vk_turn_proxy_go.Session.Supervisor.{
  Report, session_failure, transport_failure, active_workers, emit,
}

-- What `Run` uses of its surroundings; `S` is the state of an ingress that was bound.
pub record World (Ip S : Type 0) : Type 0 where
  pub parse_ip : String → Option Ip
  pub describe : PlanError → Note
  pub split_host_port : String → Result GoError (String × String)
  pub join_host_port : String → String → String
  pub has_registry : Bool
  pub get_provider : String → Result GoError (Unit {0})
  pub resolve : String → Result GoError String
  pub bind : SessionPlan Ip → String → Result GoError S
  pub supervise : SessionPlan Ip → String → S → List Report × Option GoError

-- What is left to do, or the reports and the error that `Run` ends with.
abbrev pub Step {ℓ} : Type ℓ → Type ℓ
Step A = Result (List Report × Option GoError) A

-- A report of a failure at startup, and the error wrapped in its stage.
pub fail_at : Stage → List Report → GoError → List Report × Option GoError
fail_at stage rs e = (
  rs
      ++ session_failure (stage_text stage) true
        ∷ emit "runtime_failure" (stage_text stage) "failed"
        ∷ [],
  wrap stage (some e),
)

-- `if err != nil { …; return runstage.Wrap(stage, err) }` after the reports `rs`.
pub or_fail {ℓ} : {A : Type ℓ} → Stage → List Report → Result GoError A → Step A
unfolding fail_at
or_fail stage rs (ok a) = ok a
or_fail stage rs (err e) = err (fail_at stage rs e)

abbrev pub with_text {ℓ} : {A : Type ℓ} → (PlanError → Note) → Result PlanError A → Result GoError A
with_text describe (ok a) = ok a
with_text describe (err e) = err (plain (describe e))

-- A trimmed value that replaces another, unless it is empty.
pub override : String → String → String
override old new = if str_eq (trim_space new) "" then old else trim_space new

module _ {Ip S : Type 0} (w : World Ip S) where
  pub net_join_host_port : String → String → Result GoError String
  net_join_host_port host port = do
    guard (if str_eq host "" then false else true)
        (plain (text "override turn address is missing host"))
    guard (if str_eq port "" then false else true)
        (plain (text "override turn address is missing port"))
    ok (w.join_host_port host port)

  -- With `netSplitHostPort`.
  pub apply_turn_overrides : String → String → String → Result GoError String
  unfolding override net_join_host_port
  apply_turn_overrides address host_override port_override = elim (w.split_host_port address) [
    | err e ↦ err (wrapped (text "parse turn address") e)
    | ok (host, port) ↦
        net_join_host_port (override host host_override) (override port port_override)
  ]

  abbrev pub startup : List Report
  startup = emit "runtime_startup" "bootstrap" "started" ∷ []

  abbrev pub resolved : List Report
  resolved = startup ++ emit "provider_resolution" "provider_resolve" "succeeded" ∷ []

  -- `Run` up to the supervised session.
  unfoldable pub prepare : ClientConfig → Dependencies → Step (SessionPlan Ip × (String × S))
  unfolding or_fail apply_turn_overrides
  prepare c deps = do
    guard w.has_registry
        ([], wrap provider_resolve (some (plain (text "provider registry is required"))))
    or_fail policy_validate [] (with_text w.describe (lift_config (validate_client c)))
    plan ← or_fail policy_validate [] (with_text w.describe (build_session_plan w.parse_ip c deps))
    or_fail provider_resolve [] (w.get_provider c.provider)
    address ← or_fail provider_resolve startup (w.resolve c.link)
    turn ← or_fail provider_resolve startup (apply_turn_overrides address c.turn_server c.turn_port)
    ingress ←
        or_fail local_bind (resolved ++ transport_failure (stage_text local_bind) ∷ [])
          (w.bind plan c.listen_addr)
    ok (plan, (turn, ingress))

  unfoldable pub run : ClientConfig → Dependencies → List Report × Option GoError
  unfolding prepare
  run c deps = elim (prepare c deps) [
    | err end ↦ end
    | ok (plan, (turn, ingress)) ↦
        let (rs, e) = w.supervise plan turn ingress in
        elim e [
          | some x ↦ (resolved ++ rs, some x)
          | none ↦ (
            resolved ++ rs ++ active_workers 0 ∷ emit "runtime_stop" "shutdown" "stopped" ∷ [],
            none,
          )
        ]
  ]
