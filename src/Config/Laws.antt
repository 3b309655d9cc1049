-- ===== src/Config/Laws.antt =====
-- Which configurations are accepted.
use Prim.Native.String.{String}
use text.Mathlib.TextEquality.{eq_iff}
use vk_turn_proxy_go.Base.{◌≡◌, refl, sym, ap, ◌∙◌, ◌⊎◌, inl, inr, ◌↔◌, true, false, arith}
use vk_turn_proxy_go.Base.Int.{is_pos, is_neg}
use vk_turn_proxy_go.Base.Text.{is_blank, HasText}
use vk_turn_proxy_go.Base.Result.{ok, Result-cases, both_iff, guard_iff, guard-not_iff, guard_then}
use vk_turn_proxy_go.Overlay.Adapter.{AdapterKind, normalize_adapter, validate_adapter}
use vk_turn_proxy_go.Overlay.Adapter.Laws.{
  IsSupported, validate_adapter_iff, normalize_adapter_idem,
}
use vk_turn_proxy_go.Config.{
  ServerConfig, ClientConfig, check_adapter, require_addr, normalize_adapter_kind, is_peer_mode,
  is_transport_mode, validate_server, validate_client, transport_mode_auto, transport_mode_tcp,
  transport_mode_udp, server_peer_mode_dtls, server_peer_mode_plain,
}

abbrev pub IsAcceptedClient : ClientConfig → Type 0
IsAcceptedClient c =
    let IsMode : Type 0 =
      (c.mode ≡ transport_mode_auto)
      ⊎ ((c.mode ≡ transport_mode_tcp) ⊎ (c.mode ≡ transport_mode_udp)) in
    HasText c.provider
    × (HasText c.link
        × (HasText c.listen_addr
            × (HasText c.peer_addr
                × (IsSupported c.ingress
                    × ((is_pos c.connections ≡ true)
                        × (IsMode × (is_neg c.handshake_timeout ≡ false)))))))

abbrev pub IsAcceptedServer : ServerConfig → Type 0
IsAcceptedServer c =
    let IsMode : Type 0 =
      (c.peer_mode ≡ "")
      ⊎ ((c.peer_mode ≡ server_peer_mode_dtls) ⊎ (c.peer_mode ≡ server_peer_mode_plain)) in
    HasText c.listen_addr
    × (HasText c.upstream_addr
        × (IsSupported c.egress
            × (IsMode × ((is_pos c.handshake_timeout ≡ true) × (is_pos c.idle_timeout ≡ true)))))

require_addr_iff : (name value : String) → (require_addr name value ≡ ok tt) ↔ HasText value
unfolding require_addr
require_addr_iff name value = guard-not_iff (is_blank value) _

normalize_adapter_kind_lem :
    (kind : AdapterKind) → normalize_adapter_kind kind ≡ normalize_adapter kind
unfolding normalize_adapter_kind normalize_adapter
normalize_adapter_kind_lem kind = refl

check_adapter_iff :
    (kind : AdapterKind) (role : String)
    → (check_adapter (validate_adapter (normalize_adapter_kind kind) role) ≡ ok tt)
      ↔ IsSupported kind
check_adapter_iff kind role =
    let k = normalize_adapter_kind kind in
    let q : normalize_adapter k ≡ normalize_adapter kind =
      ap normalize_adapter (normalize_adapter_kind_lem kind) ∙ normalize_adapter_idem kind in
    let v = validate_adapter_iff k role in
    elim (Result-cases (validate_adapter k role)) [
      | inl (u, e) ↦ rw e (λ h. rw q at (v.1 e), λ h. refl)
      | inr (x, e) ↦ rw e (λ h. cc, λ h. cc (sym e ∙ v.0 (rw q h)))
    ]

is_peer_mode_iff :
    (mode : String)
    → (is_peer_mode mode ≡ true)
      ↔ ((mode ≡ "") ⊎ ((mode ≡ server_peer_mode_dtls) ⊎ (mode ≡ server_peer_mode_plain)))
unfolding is_peer_mode
is_peer_mode_iff mode = ground (arith, eq_iff mode "", eq_iff mode "dtls", eq_iff mode "plain")

is_transport_mode_iff :
    (mode : String)
    → (is_transport_mode mode ≡ true)
      ↔ ((mode ≡ transport_mode_auto) ⊎ ((mode ≡ transport_mode_tcp) ⊎ (mode ≡ transport_mode_udp)))
unfolding is_transport_mode
is_transport_mode_iff mode =
    ground (arith, eq_iff mode "auto", eq_iff mode "tcp", eq_iff mode "udp")

-- The server's checks accept exactly the configurations with both addresses, a supported egress, a
-- known peer mode or none, and positive timeouts.
pub validate_server_iff : (c : ServerConfig) → (validate_server c ≡ ok tt) ↔ IsAcceptedServer c
unfolding validate_server
validate_server_iff c = both_iff _ _ (require_addr_iff "listen" c.listen_addr) (
    both_iff _ _ (require_addr_iff "upstream" c.upstream_addr) (
      both_iff _ _ (check_adapter_iff c.egress "server egress") (
        both_iff _ _ (guard_then (is_peer_mode c.peer_mode) _ (is_peer_mode_iff c.peer_mode)) (
          both_iff _ _ (guard_iff (is_pos c.handshake_timeout) _)
            (guard_iff (is_pos c.idle_timeout) _)))))

-- The client's checks accept exactly the configurations with a provider, a link, both addresses, a
-- supported ingress, a positive number of connections, a known transport mode and a timeout that is
-- not negative.
pub validate_client_iff : (c : ClientConfig) → (validate_client c ≡ ok tt) ↔ IsAcceptedClient c
unfolding validate_client
validate_client_iff c = both_iff _ _ (guard-not_iff (is_blank c.provider) _) (
    both_iff _ _ (guard-not_iff (is_blank c.link) _) (
      both_iff _ _ (require_addr_iff "listen" c.listen_addr) (
        both_iff _ _ (require_addr_iff "peer" c.peer_addr) (
          both_iff _ _ (check_adapter_iff c.ingress "client ingress") (
            both_iff _ _ (guard_iff (is_pos c.connections) _) (
              both_iff _ _ (guard_then (is_transport_mode c.mode) _ (is_transport_mode_iff c.mode))
                (guard-not_iff (is_neg c.handshake_timeout) _)))))))
