-- ===== src/ClientControl/Artifacts/Failure.antt =====
-- pkg/clientcontrol/resolution.go: what is told of a provider's error.
use Prim.Native.String.{String, ◌++◌}
use vk_turn_proxy_go.Base.{Bool, false, Option, none, some, if◌then◌else◌}
use vk_turn_proxy_go.Base.Text.{is_empty, trim_space}
use vk_turn_proxy_go.ClientControl.Artifacts.{ProbeArtifact, ProbeProviderError}

-- An error, by what `errors.Is` and `errors.As` find in it: `was_cancelled` of `context.Canceled` and
-- of the cancelled challenge, `probe` of a `provider.ArtifactError` with an artifact.
pub record ResolveError : Type 0 where
  pub text : String
  pub was_cancelled : Bool
  pub not_implemented : Bool
  pub probe : Option ProbeArtifact

-- An error that is nothing but its text.
abbrev pub plain_error : String → ResolveError
plain_error text = record {
  text = text;
  was_cancelled = false;
  not_implemented = false;
  probe = none;
}

unfoldable pub provider_error_message : Option ProbeProviderError → String
unfolding trim_space
provider_error_message none = "provider resolution failed"
provider_error_message (some e) =
    let stage = trim_space e.stage in
    let code = trim_space e.code in
    if is_empty stage
    then if is_empty code
      then "provider resolution failed"
      else "provider resolution failed [" ++ code ++ "]"
    else if is_empty code
    then "provider resolution failed at " ++ stage
    else "provider resolution failed at " ++ stage ++ " [" ++ code ++ "]"

abbrev message_by : Option ProbeArtifact → String → String
message_by none text = text
message_by (some a) text = provider_error_message a.outcome.provider_error

-- `redactedResolutionErrorMessage`.
unfoldable pub redacted_message : ResolveError → String
unfolding provider_error_message
redacted_message e = message_by e.probe e.text

abbrev stage_of : Option ProbeProviderError → String
stage_of none = ""
stage_of (some e) = e.stage

abbrev stage_by : Option ProbeArtifact → String
stage_by none = ""
stage_by (some a) = stage_of a.outcome.provider_error

unfoldable pub error_stage : ResolveError → String
error_stage e = stage_by e.probe
