-- ===== src/ClientControl/Artifacts/Privacy.antt =====
-- What the snapshot of a resolution does not tell.
use Prim.Native.String.{String}
use vk_turn_proxy_go.Base.{ℕ, ◌≡◌, refl, List}
use vk_turn_proxy_go.Base.Text.{is_blank}
use vk_turn_proxy_go.ClientControl.Execution.{PlatformTunnelCapability}
use vk_turn_proxy_go.ClientControl.Artifacts.{ProviderResolution, ProviderDescriptor}
use vk_turn_proxy_go.ClientControl.Artifacts.Contract.{
  Library, resolved_contract, has_transport_ready_credentials, artifact_family, artifact_summary,
  redacted_credentials, export_status, told_expiry, metadata_value,
}

-- The same answer with other secrets.
abbrev pub with_secrets : (username password : String) → ProviderResolution → ProviderResolution
with_secrets username password r = record r {
  credentials = record r.credentials { username = username; password = password };
}

has_transport_ready_credentials-with_secrets :
    (r : ProviderResolution) (username password : String)
    → is_blank username ≡ is_blank r.credentials.username
    → is_blank password ≡ is_blank r.credentials.password
    → has_transport_ready_credentials (with_secrets username password r).credentials
      ≡ has_transport_ready_credentials r.credentials
unfolding has_transport_ready_credentials
has_transport_ready_credentials-with_secrets r username password u p = rw (u, p) refl

module _ (r : ProviderResolution) (username password : String) where
  redacted_credentials-with_secrets :
      redacted_credentials (with_secrets username password r) ≡ redacted_credentials r
  unfolding redacted_credentials
  redacted_credentials-with_secrets = refl

  artifact_summary-with_secrets :
      (family : String)
      → artifact_summary family (with_secrets username password r) ≡ artifact_summary family r
  unfolding artifact_summary
  artifact_summary-with_secrets family = rw redacted_credentials-with_secrets refl

  export_status-with_secrets :
      (lib : Library) (now : ℕ)
      → export_status lib (with_secrets username password r) now ≡ export_status lib r now
  unfolding export_status told_expiry metadata_value
  export_status-with_secrets lib now = refl

  module _ (u : is_blank username ≡ is_blank r.credentials.username)
      (p : is_blank password ≡ is_blank r.credentials.password) (d : ProviderDescriptor) where
    artifact_family-with_secrets :
        artifact_family d (with_secrets username password r) ≡ artifact_family d r
    unfolding artifact_family
    artifact_family-with_secrets =
        rw (has_transport_ready_credentials-with_secrets r username password u p) refl

-- The credentials, the export status and the artifact that a resolution shows, or the error, are the
-- same whatever the user name and the password are, as long as the same of them are blank.
pub resolved_contract-with_secrets :
    (lib : Library) (d : ProviderDescriptor) (r : ProviderResolution) (username password : String)
    (now : ℕ) (tunnels : List PlatformTunnelCapability)
    → is_blank username ≡ is_blank r.credentials.username
    → is_blank password ≡ is_blank r.credentials.password
    → resolved_contract lib d (with_secrets username password r) now tunnels
      ≡ resolved_contract lib d r now tunnels
unfolding resolved_contract
resolved_contract-with_secrets lib d r username password now tunnels u p =
    rw
      (
        artifact_family-with_secrets r username password u p d,
        has_transport_ready_credentials-with_secrets r username password u p,
        export_status-with_secrets r username password lib now,
        redacted_credentials-with_secrets r username password,
      )
      refl
