-- ===== src/ClientControl/Host/Resolutions/Start.antt =====
-- pkg/clientcontrol/resolution.go: StartResolution. The redaction of a link is left out: a start is
-- given the redacted link.
use Prim.Native.String.{String}
use text.Mathlib.Text.{◌==◌ as str_eq}
use vk_turn_proxy_go.Base.{
  ℕ, Bool, true, false, not, List, [], ◌∷◌, Option, none, some, if◌then◌else◌, take,
}
use vk_turn_proxy_go.Base.Text.{is_empty, trim_space}
use vk_turn_proxy_go.Base.TextDict.{lookup, insert}
use vk_turn_proxy_go.Base.Result.{Result, ok, err, ◌>>◌, guard}
use vk_turn_proxy_go.ClientControl.Artifacts.{no_answer, ProviderDescriptor, no_export}
use vk_turn_proxy_go.ClientControl.Types.{
  resolution_starting, event_resolution_starting, Resolution,
}
use vk_turn_proxy_go.ClientControl.Host.{Host, ManagedResolution, StartedInput, publish_event}
use vk_turn_proxy_go.ClientControl.Host.Resolutions.{resolution_event, log_resolution}

abbrev pub link_kind : String
link_kind = "link"

-- The request of a start: `input` is its envelope, and `settings_error` what
-- `normalizeProviderSettingsForDescriptor` has against its settings.
pub record StartRequest : Type 0 where
  pub provider : String
  pub input : Option (String × String)
  pub settings_error : Option String

pub data StartError : Type 0 where
  provider_required input_required kind_required link_required allocation_failed : StartError
  no_descriptor settings_refused kind_unsupported : String → StartError
  other_kind : (provider expected found : String) → StartError

abbrev has_modes : List String → Bool
has_modes [] = false
has_modes (m ∷ ms) = true

abbrev accept_settings : Option String → StartedInput → Result StartError StartedInput
accept_settings none input = ok input
accept_settings (some message) input = err (settings_refused message)

-- `normalizeStartResolutionRequest`, with `normalizeProviderInputEnvelope`.
abbrev pub normalize_input :
    ProviderDescriptor
    → String
    → Option String
    → Option (String × String)
    → Result StartError StartedInput
normalize_input d provider settings none = err input_required
normalize_input d provider settings (some (kind, link)) =
    let k = trim_space kind in
    let l = trim_space link in
    guard (not (is_empty k)) kind_required
    >> (guard (str_eq k d.input_kind) (other_kind provider d.input_kind k)
        >> (guard (str_eq k link_kind) (kind_unsupported k)
            >> (guard (not (is_empty l)) link_required
                >> accept_settings settings (record {
                  provider = provider;
                  kind = k;
                  link = l;
                  interactive_provider = has_modes d.challenge_modes;
                }))))

-- A candidate under which there is no resolution, or else what comes after.
abbrev pub unless_resolving : Option ManagedResolution → String → Option String → Option String
unless_resolving none candidate rest = some candidate
unless_resolving (some m) candidate rest = rest

-- `allocateResolutionID`, on what `newID` answers.
unfoldable pub allocate_resolution_among :
    List String → List (String × ManagedResolution) → Option String
unfolding trim_space lookup
allocate_resolution_among [] resolutions = none
allocate_resolution_among (answer ∷ answers) resolutions =
    let rest = allocate_resolution_among answers resolutions in
    let candidate = trim_space answer in
    if is_empty candidate
    then rest
    else unless_resolving (lookup candidate resolutions) candidate rest

unfoldable pub allocate_resolution_id : List String → Host → Option String
unfolding allocate_resolution_among
allocate_resolution_id answers h = allocate_resolution_among (take 8 answers) h.resolutions

unfoldable pub fresh_resolution :
    String → ProviderDescriptor → StartedInput → String → ℕ → ℕ → ManagedResolution
fresh_resolution id d input link_redacted now limit =
    let s : Resolution = record {
      id = id;
      provider = input.provider;
      resolution_method = "";
      input = record {
        provider = input.provider;
        kind = input.kind;
        link_redacted = link_redacted;
        interactive_provider = input.interactive_provider;
      };
      artifact = none;
      state = resolution_starting;
      credentials = none;
      export = no_export;
      failure = none;
      active_challenge_id = "";
      started_at = now;
      updated_at = now;
      resolved_at = none;
      expired_at = none;
      remote_vps = none;
    } in
    log_resolution limit (resolution_event s event_resolution_starting "") (record {
      snapshot = s;
      secret = no_answer;
      remote_export_payload = "";
      has_lease = false;
      descriptor = d;
      cancelled = false;
      done = false;
      input = input;
      events = [];
      challenges = [];
    })

-- The locked part of `StartResolution`.
unfoldable pub start_resolution_locked :
    String → ProviderDescriptor → StartedInput → String → ℕ → Host → Host
unfolding fresh_resolution insert
start_resolution_locked id d input link_redacted now h = record h {
  resolutions =
      insert id (fresh_resolution id d input link_redacted now h.history_limit) h.resolutions;
}

module _ (new_id : ℕ → String) where
  -- `StartResolution`, once the registry has the descriptor.
  abbrev pub start_with :
      Option String
      → ProviderDescriptor
      → StartedInput
      → String
      → ℕ
      → Host
      → Result StartError Resolution × Host
  start_with none d input link_redacted now h = (err allocation_failed, h)
  start_with (some id) d input link_redacted now h =
      let s = (fresh_resolution id d input link_redacted now h.history_limit).snapshot in
      (
        ok s,
        publish_event new_id (resolution_event s event_resolution_starting "")
            (start_resolution_locked id d input link_redacted now h),
      )

  abbrev pub start_normalized :
      Result StartError StartedInput
      → List String
      → ProviderDescriptor
      → String
      → ℕ
      → Host
      → Result StartError Resolution × Host
  start_normalized (err e) answers d link_redacted now h = (err e, h)
  start_normalized (ok input) answers d link_redacted now h =
      start_with (allocate_resolution_id answers h) d input link_redacted now h

  unfoldable pub start_resolution :
      StartRequest
      → List String
      → Result String ProviderDescriptor
      → String
      → ℕ
      → Host
      → Result StartError Resolution × Host
  unfolding trim_space allocate_resolution_id fresh_resolution publish_event start_resolution_locked
  start_resolution req answers (err e) link_redacted now h =
      if is_empty (trim_space req.provider)
      then (err provider_required, h)
      else (err (no_descriptor e), h)
  start_resolution req answers (ok d) link_redacted now h =
      if is_empty (trim_space req.provider)
      then (err provider_required, h)
      else start_normalized
          (normalize_input d (trim_space req.provider) req.settings_error req.input) answers d
          link_redacted now h
