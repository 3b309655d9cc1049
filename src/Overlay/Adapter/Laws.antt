-- ===== src/Overlay/Adapter/Laws.antt =====
-- Normalising an adapter kind, and its code on the wire.
use Prim.Native.String.{String}
use text.Mathlib.Text.{◌==◌ as str_eq}
use text.Mathlib.TextEquality.{eq_iff}
use vk_turn_proxy_go.Base.{
  ℕ, ◌≡◌, refl, ◌≢◌, ◌⊎◌, inl, inr, ◌↔◌, ◌||◌, if◌then◌else◌, if_intro, true, arith,
}
use vk_turn_proxy_go.Base.Bytes.{IsByte}
use vk_turn_proxy_go.Base.Text.{trim_space}
use vk_turn_proxy_go.Base.Result.{ok}
use vk_turn_proxy_go.Overlay.Adapter.{
  AdapterKind, adapter_udp, adapter_tcp, normalize_adapter, validate_adapter, supported_pair,
  adapter_code, adapter_from_code,
}

-- The kinds for which the code has an adapter.
abbrev pub IsSupported : AdapterKind → Type 0
IsSupported kind = (normalize_adapter kind ≡ adapter_udp) ⊎ (normalize_adapter kind ≡ adapter_tcp)

-- Normalising twice is normalising once.
pub normalize_adapter_idem :
    (kind : AdapterKind) → normalize_adapter (normalize_adapter kind) ≡ normalize_adapter kind
unfolding normalize_adapter trim_space
normalize_adapter_idem kind =
    let t = trim_space kind in
    let P : AdapterKind → Type 0 = λ k. normalize_adapter k ≡ k in
    if_intro P (str_eq t "" || str_eq t adapter_udp) adapter_udp
      (if str_eq t adapter_tcp then adapter_tcp else kind) (λ e. refl)
      (λ e. if_intro P (str_eq t adapter_tcp) adapter_tcp kind (λ f. refl) (λ f. rw (e, f)))

udp-ne-tcp : adapter_udp ≢ adapter_tcp
udp-ne-tcp = ground (arith, eq_iff "udp" "tcp")

pub adapter_from_code-adapter_code :
    (kind : AdapterKind) (code : ℕ)
    → adapter_code kind ≡ ok code
    → adapter_from_code code ≡ ok (normalize_adapter kind)
unfolding adapter_code adapter_from_code
adapter_from_code-adapter_code kind code h =
    ground (arith, eq_iff (normalize_adapter kind) "udp", eq_iff (normalize_adapter kind) "tcp")

adapter_code_udp : adapter_code adapter_udp ≡ ok 1
unfolding adapter_code normalize_adapter trim_space
adapter_code_udp = refl

adapter_code_tcp : adapter_code adapter_tcp ≡ ok 2
unfolding adapter_code normalize_adapter trim_space
adapter_code_tcp = refl

pub adapter_code-adapter_from_code :
    (code : ℕ) (kind : AdapterKind) → adapter_from_code code ≡ ok kind → adapter_code kind ≡ ok code
unfolding adapter_from_code
adapter_code-adapter_from_code code kind h = ground (arith, adapter_code_udp, adapter_code_tcp)

pub adapter_code_total :
    (kind : AdapterKind)
    → IsSupported kind
    → (code : ℕ) × (adapter_code kind ≡ ok code) × IsByte code
unfolding adapter_code
adapter_code_total kind (inl u) =
    (1, ground (arith, eq_iff (normalize_adapter kind) "udp"), omega arith)
adapter_code_total kind (inr t) = (
  2,
  ground (
    arith,
    udp-ne-tcp,
    eq_iff (normalize_adapter kind) "udp",
    eq_iff (normalize_adapter kind) "tcp",
  ),
  omega arith,
)

pub IsSupported-of_adapter_code :
    (kind : AdapterKind) (code : ℕ) → adapter_code kind ≡ ok code → IsSupported kind
unfolding adapter_code
IsSupported-of_adapter_code kind code h =
    ground (arith, eq_iff (normalize_adapter kind) "udp", eq_iff (normalize_adapter kind) "tcp")

pub validate_adapter_iff :
    (kind : AdapterKind) (role : String) → IsSupported kind ↔ (validate_adapter kind role ≡ ok tt)
unfolding validate_adapter
validate_adapter_iff kind role =
    ground (arith, eq_iff (normalize_adapter kind) "udp", eq_iff (normalize_adapter kind) "tcp")

-- Only like adapters pair up, and a pair is supported exactly when both sides are the same adapter.
pub supported_pair_iff :
    (ingress egress : AdapterKind)
    → (supported_pair ingress egress ≡ true)
      ↔ (IsSupported ingress × (normalize_adapter ingress ≡ normalize_adapter egress))
unfolding supported_pair
supported_pair_iff ingress egress = ground (
  arith,
  eq_iff (normalize_adapter ingress) "udp",
  eq_iff (normalize_adapter ingress) "tcp",
  eq_iff (normalize_adapter egress) "udp",
  eq_iff (normalize_adapter egress) "tcp",
)
