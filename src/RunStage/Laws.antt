-- ===== src/RunStage/Laws.antt =====
-- The stage that an error keeps on its way up.
use vk_turn_proxy_go.Base.{◌≡◌, refl, inl, inr, Option, none, some, Option-cases}
use vk_turn_proxy_go.RunStage.{Stage, GoError, staged, from_error, wrap}

-- The stage of a wrapped error: the one that it had, or else the one that it is wrapped in.
abbrev pub or_stage : Option Stage → Stage → Stage
or_stage none s = s
or_stage (some t) s = t

-- `Wrap` of an error is an error whose stage is the innermost caller's: the one that the error
-- already carried, or else the one given; and wrapping it again at any stage changes nothing.
pub from_error-wrap :
    (s t : Stage) (e : GoError)
    → (w : GoError) × (wrap s (some e) ≡ some w)
      × (from_error w ≡ some (or_stage (from_error e) s))
      × (wrap t (some w) ≡ some w)
unfolding wrap from_error
from_error-wrap s t e = elim (Option-cases (from_error e)) [
  | inl h ↦ (staged s e, rw (h, wrap), rw h, refl)
  | inr (u, h) ↦ (e, rw (h, wrap), rw h, rw (h, wrap))
]
