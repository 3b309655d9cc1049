-- ===== src/ClientControl/Artifacts/Contract.antt =====
-- pkg/clientcontrol/resolution.go: what a provider's answer becomes in the snapshot of a resolution.
use Prim.Native.String.{String, ◌++◌ as join}
use text.Mathlib.Text.{◌==◌ as str_eq}
use vk_turn_proxy_go.Base.{
  ℕ, zero, suc, ◌+◌, Bool, true, false, not, ◌&&◌, ◌||◌, List, [], ◌∷◌, Option, none, some,
  if◌then◌else◌, ltb,
}
use vk_turn_proxy_go.Base.Int.{ℤ, pos, negsuc}
use vk_turn_proxy_go.Base.Text.{is_blank, is_empty, trim_space}
use vk_turn_proxy_go.Base.TextDict.{lookup}
use vk_turn_proxy_go.Base.Result.{Result, ok, err}
use vk_turn_proxy_go.ClientControl.Execution.{PlatformTunnelCapability}
use vk_turn_proxy_go.ClientControl.Execution.Matrix.{
  access_methods_of, plans_for_action, start_on_this_device, generic_turn,
}
use vk_turn_proxy_go.ClientControl.Artifacts.{
  conference_room, camera_stream, export_handoff, open_room, open_camera, open_archive,
  ActionExecutionOwner, owner_host, owner_shell_external, Credentials, ProbeResolution,
  ProbeOutcome, ProbeArtifact, ProviderResolution, ProviderDescriptor, ResolutionCredentials,
  ResolutionExportStatus, no_export, ResolutionArtifactSummary, no_summary, ResolutionAction,
  ResolutionArtifact,
}

-- What is called of Go's standard library.
pub record Library : Type 0 where
  pub parse_rfc3339 : String → Option ℕ  -- `time.Parse`
  pub url_text : (scheme username password host : String) → String  -- `url.URL.String`
  pub quote : String → String  -- the verb %q

abbrev pub expiry_source_key : String
expiry_source_key = "turn_credential_expiry_source"

abbrev pub expiry_timestamp_key : String
expiry_timestamp_key = "turn_credential_expires_at"

abbrev pub expiry_source_provider_ttl : String
expiry_source_provider_ttl = "provider_credentials_ttl"

abbrev pub redacted_turn_username : String
redacted_turn_username = "<redacted:turn-username>"

abbrev pub redacted_turn_password : String
redacted_turn_password = "<redacted:turn-password>"

-- `firstNonEmpty` of two values.
unfoldable pub first_non_empty : String → String → String
unfolding is_blank
first_non_empty a b = if is_blank a then if is_blank b then "" else b else a

abbrev text_or_empty : Option String → String
text_or_empty none = ""
text_or_empty (some t) = t

-- `m[k]` of a map that may be nil, trimmed.
unfoldable pub metadata_value : String → ProviderResolution → String
unfolding lookup trim_space
metadata_value k r = trim_space (text_or_empty (lookup k r.metadata))

unfoldable pub has_transport_ready_credentials : Credentials → Bool
unfolding is_blank
has_transport_ready_credentials c =
    not (is_blank c.username) && not (is_blank c.password) && not (is_blank c.address)

abbrev pub contains : String → List String → Bool
contains x [] = false
contains x (y ∷ ys) = str_eq y x || contains x ys

abbrev is_present {ℓ} : {A : Type ℓ} → Option A → Bool
is_present none = false
is_present (some a) = true

-- The family of a probe, or none that the provider has.
abbrev pub family_of_outcome : ProviderDescriptor → ProbeOutcome → String
family_of_outcome d o =
    if is_present o.room_url || str_eq (trim_space o.result_kind) conference_room
    then if contains conference_room d.artifact_families then conference_room else ""
    else if is_present o.camera || str_eq (trim_space o.result_kind) camera_stream
    then if contains camera_stream d.artifact_families then camera_stream else ""
    else ""

abbrev pub family_of_probe : ProviderDescriptor → Option ProbeArtifact → String
family_of_probe d none = ""
family_of_probe d (some a) = family_of_outcome d a.outcome

abbrev pub only_family : List String → String
only_family (f ∷ []) = f
only_family fs = ""

unfoldable pub artifact_family : ProviderDescriptor → ProviderResolution → String
unfolding has_transport_ready_credentials trim_space
artifact_family d r =
    let found = family_of_probe d r.artifact in
    if has_transport_ready_credentials r.credentials
    then generic_turn
    else if is_empty found
    then only_family d.artifact_families
    else found

abbrev pub probe_redactions : Option ProbeArtifact → Option ProbeResolution
probe_redactions none = none
probe_redactions (some a) = a.outcome.resolution

abbrev redact_by : Option ProbeResolution → ResolutionCredentials → ResolutionCredentials
redact_by none c = c
redact_by (some p) c = record c {
  username_redacted = first_non_empty p.username_redacted c.username_redacted;
  password_redacted = first_non_empty p.password_redacted c.password_redacted;
}

unfoldable pub redacted_credentials : ProviderResolution → Option ResolutionCredentials
unfolding is_blank first_non_empty
redacted_credentials r =
    if is_blank r.credentials.address
    then none
    else (some (
        redact_by (probe_redactions r.artifact) (record {
          address = r.credentials.address;
          username_redacted = redacted_turn_username;
          password_redacted = redacted_turn_password;
        })))

abbrev turn_summary : Option ResolutionCredentials → Option ResolutionArtifactSummary
turn_summary none = none
turn_summary (some c) = some (record no_summary { generic_turn = some c })

abbrev room_summary : Option String → Option ResolutionArtifactSummary
room_summary none = none
room_summary (some url) =
    let room = trim_space url in
    if is_empty room then none else some (record no_summary { conference_room = some room })

abbrev camera_summary : Option (String × String) → Option ResolutionArtifactSummary
camera_summary none = none
camera_summary (some (url, archive)) =
    let c = trim_space url in
    let a = trim_space archive in
    if is_empty c && is_empty a
    then none
    else some (record no_summary { camera_stream = some (c, a) })

abbrev room_of : Option ProbeArtifact → Option String
room_of none = none
room_of (some a) = a.outcome.room_url

abbrev camera_of : Option ProbeArtifact → Option (String × String)
camera_of none = none
camera_of (some a) = a.outcome.camera

unfoldable pub artifact_summary : String → ProviderResolution → Option ResolutionArtifactSummary
unfolding redacted_credentials trim_space
artifact_summary family r =
    if str_eq family generic_turn
    then turn_summary (redacted_credentials r)
    else if str_eq family conference_room
    then room_summary (room_of r.artifact)
    else if str_eq family camera_stream
    then camera_summary (camera_of r.artifact)
    else none

abbrev has_room : Option String → Bool
has_room none = false
has_room (some url) = not (is_blank url)

abbrev has_camera : Option (String × String) → Bool
has_camera none = false
has_camera (some (url, archive)) = not (is_blank url)

abbrev has_archive : Option (String × String) → Bool
has_archive none = false
has_archive (some (url, archive)) = not (is_blank archive)

unfoldable pub action_supported :
    (action family : String) → ResolutionExportStatus → ResolutionArtifactSummary → Bool
unfolding is_blank
action_supported action family export s =
    if str_eq action start_on_this_device
    then str_eq family generic_turn
    else if str_eq action export_handoff
    then str_eq family generic_turn && export.supported
    else if str_eq action open_room
    then str_eq family conference_room && has_room s.conference_room
    else if str_eq action open_camera
    then str_eq family camera_stream && has_camera s.camera_stream
    else if str_eq action open_archive
    then str_eq family camera_stream && has_archive s.camera_stream
    else false

unfoldable pub execution_owner : String → ActionExecutionOwner
execution_owner action =
    if str_eq action open_room || str_eq action open_camera || str_eq action open_archive
    then owner_shell_external
    else owner_host

abbrev pub action_of : (action family : String) → List PlatformTunnelCapability → ResolutionAction
action_of action family tunnels = record {
  id = action;
  execution_owner = execution_owner action;
  execution_plans = plans_for_action action family tunnels;
}

unfoldable pub artifact_actions :
    List String
    → String
    → ResolutionExportStatus
    → ResolutionArtifactSummary
    → List PlatformTunnelCapability
    → List ResolutionAction
unfolding action_supported execution_owner plans_for_action
artifact_actions [] family export s tunnels = []
artifact_actions (a ∷ more) family export s tunnels =
    let rest = artifact_actions more family export s tunnels in
    if action_supported a family export s then action_of a family tunnels ∷ rest else rest

abbrev artifact_of :
    Option ResolutionArtifactSummary
    → ProviderDescriptor
    → String
    → ResolutionExportStatus
    → List PlatformTunnelCapability
    → Option ResolutionArtifact
artifact_of none d family export tunnels = none
artifact_of (some s) d family export tunnels = some (record {
  family = family;
  access_methods = access_methods_of family;
  actions = artifact_actions d.potential_actions family export s tunnels;
  summary = s;
})

unfoldable pub artifact_from_resolution :
    ProviderDescriptor
    → ProviderResolution
    → ResolutionExportStatus
    → List PlatformTunnelCapability
    → Option ResolutionArtifact
unfolding artifact_family artifact_summary artifact_actions
artifact_from_resolution d r export tunnels =
    let family = artifact_family d r in
    if is_empty family
    then none
    else artifact_of (artifact_summary family r) d family export tunnels

-- What `resolvedSnapshotContract` returns beside an error.
pub record Contract : Type 0 where
  pub credentials : Option ResolutionCredentials
  pub export : ResolutionExportStatus
  pub artifact : ResolutionArtifact

abbrev or_incomplete :
    String
    → Option ResolutionCredentials
    → ResolutionExportStatus
    → Option ResolutionArtifact
    → Result String Contract
or_incomplete message c e none = err message
or_incomplete message c e (some a) = ok (record { credentials = c; export = e; artifact = a })

-- The end of credentials that are valid for so long.
abbrev pub ttl_expiry : ℤ → ℕ → Option ℕ
ttl_expiry (pos zero) now = none
ttl_expiry (pos (suc n)) now = some (now + suc n)
ttl_expiry (negsuc n) now = none

abbrev pub status_until : ℕ → Option ℕ → String → ResolutionExportStatus
status_until now none source = no_export
status_until now (some t) source = record {
  supported = ltb now t;
  expires_at = some t;
  expiry_source = source;
}

abbrev expiry_or_ttl : Option ℕ → ℤ → ℕ → Option ℕ
expiry_or_ttl none ttl now = ttl_expiry ttl now
expiry_or_ttl (some t) ttl now = some t

module _ (lib : Library) where
  -- The instant that the metadata tells.
  unfoldable pub told_expiry : ProviderResolution → Option ℕ
  unfolding metadata_value
  told_expiry r =
      let raw = metadata_value expiry_timestamp_key r in
      if is_empty raw then none else lib.parse_rfc3339 raw

  -- `resolutionExpiresAt` and `resolutionExportStatus`.
  unfoldable pub export_status : ProviderResolution → ℕ → ResolutionExportStatus
  unfolding told_expiry metadata_value first_non_empty
  export_status r now =
      status_until now (expiry_or_ttl (told_expiry r) r.credentials.ttl now)
        (first_non_empty (metadata_value expiry_source_key r) expiry_source_provider_ttl)

  unfoldable pub resolved_contract :
      ProviderDescriptor
      → ProviderResolution
      → ℕ
      → List PlatformTunnelCapability
      → Result String Contract
  unfolding artifact_family has_transport_ready_credentials export_status redacted_credentials
      artifact_from_resolution
  resolved_contract d r now tunnels =
      let family = artifact_family d r in
      let export = export_status r now in
      if is_empty family
      then err "provider resolution returned no supported runtime artifact"
      else if str_eq family generic_turn
      then if has_transport_ready_credentials r.credentials
        then or_incomplete "provider resolution returned incomplete generic_turn runtime artifact"
            (redacted_credentials r) export (artifact_from_resolution d r export tunnels)
        else err "provider resolution returned incomplete TURN credentials"
      else if str_eq family conference_room
      then or_incomplete "provider resolution returned incomplete conference_room runtime artifact"
          none no_export (artifact_from_resolution d r no_export tunnels)
      else if str_eq family camera_stream
      then or_incomplete "provider resolution returned incomplete camera_stream runtime artifact"
          none no_export (artifact_from_resolution d r no_export tunnels)
      else err (join "provider resolution returned unsupported artifact family " (lib.quote family))

  -- `genericturn.FormatLink`.
  unfoldable pub format_link : Credentials → String
  format_link c =
      if is_empty c.username || is_empty c.password || is_empty c.address
      then ""
      else lib.url_text "generic-turn" c.username c.password c.address
