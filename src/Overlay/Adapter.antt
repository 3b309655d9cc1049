-- ===== src/Overlay/Adapter.antt =====
-- internal/overlay/types.go: the adapter kinds and their codes on the wire.
pub mod Laws
use Prim.Native.String.{String}
use text.Mathlib.Text.{◌==◌ as str_eq}
use vk_turn_proxy_go.Base.{ℕ, Bool, ◌&&◌, ◌||◌, ◌==◌, if◌then◌else◌}
use vk_turn_proxy_go.Base.Text.{trim_space}
use vk_turn_proxy_go.Base.Result.{Result, ok, err}

abbrev pub AdapterKind : Type 0
AdapterKind = String

abbrev pub adapter_udp : AdapterKind
adapter_udp = "udp"

abbrev pub adapter_tcp : AdapterKind
adapter_tcp = "tcp"

pub data AdapterError : Type 0 where
  unsupported_adapter : (role : String) (kind : AdapterKind) → AdapterError
  unsupported_overlay_adapter : AdapterKind → AdapterError
  unsupported_overlay_code : ℕ → AdapterError

unfoldable pub normalize_adapter : AdapterKind → AdapterKind
normalize_adapter kind =
    let t = trim_space kind in
    if str_eq t "" || str_eq t adapter_udp
    then adapter_udp
    else if str_eq t adapter_tcp
    then adapter_tcp
    else kind

-- The cases of the `switch` over a normalised kind.
unfoldable pub is_udp : AdapterKind → Bool
is_udp kind = str_eq kind adapter_udp

unfoldable pub is_tcp : AdapterKind → Bool
is_tcp kind = str_eq kind adapter_tcp

unfoldable pub validate_adapter : AdapterKind → String → Result AdapterError (Unit {0})
unfolding is_udp is_tcp
validate_adapter kind role =
    if is_udp (normalize_adapter kind) || is_tcp (normalize_adapter kind)
    then ok tt
    else err (unsupported_adapter role kind)

unfoldable pub supported_pair : AdapterKind → AdapterKind → Bool
unfolding is_udp is_tcp
supported_pair ingress egress =
    (is_udp (normalize_adapter ingress) && is_udp (normalize_adapter egress))
    || (is_tcp (normalize_adapter ingress) && is_tcp (normalize_adapter egress))

unfoldable pub adapter_code : AdapterKind → Result AdapterError ℕ
unfolding is_udp is_tcp
adapter_code kind =
    if is_udp (normalize_adapter kind)
    then ok 1
    else if is_tcp (normalize_adapter kind)
    then ok 2
    else err (unsupported_overlay_adapter kind)

unfoldable pub adapter_from_code : ℕ → Result AdapterError AdapterKind
adapter_from_code code =
    if code == 1
    then ok adapter_udp
    else if code == 2
    then ok adapter_tcp
    else err (unsupported_overlay_code code)
