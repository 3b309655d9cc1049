-- ===== src/RunStage.antt =====
-- internal/runstage/stage.go: errors that carry the stage at which a run failed. A Go error is its
-- own text, or a wrapper of another error, as `fmt.Errorf` with `%w` and `*runstage.Error` make it.
pub mod Laws
use Prim.Native.String.{String}
use vk_turn_proxy_go.Base.{ℕ, Option, none, some}

pub data Stage : Type 0 where
  policy_validate provider_resolve session_supervise local_bind turn_dial : Stage
  turn_allocate peer_setup dtls_handshake forwarding_loop : Stage

-- `string(stage)`.
abbrev pub stage_text : Stage → String
stage_text policy_validate = "policy_validate"
stage_text provider_resolve = "provider_resolve"
stage_text session_supervise = "session_supervision"
stage_text local_bind = "local_bind"
stage_text turn_dial = "turn_dial"
stage_text turn_allocate = "turn_allocate"
stage_text peer_setup = "peer_setup"
stage_text dtls_handshake = "dtls_handshake"
stage_text forwarding_loop = "forwarding_loop"

-- The text of an error, its arguments kept.
pub data Note : Type 0 where
  text : String → Note
  worker_stopped : (index : ℕ) → Note
  budget_exhausted : (index restarts : ℕ) → Note

pub data GoError : Type 0 where
  plain : Note → GoError
  wrapped : Note → GoError → GoError
  staged : Stage → GoError → GoError

-- `FromError`, with the loop of `errors.As` down the chain.
unfoldable pub from_error : GoError → Option Stage
from_error (plain n) = none
from_error (wrapped n e) = from_error e
from_error (staged s e) = some s

unfoldable pub wrap : Stage → Option GoError → Option GoError
wrap stage none = none
wrap stage (some e) = elim (from_error e) [ none ↦ some (staged stage e) | some s ↦ some e ]
