-- ===== src/TunnelServer/ClientFrames.antt =====
-- internal/tunnelserver/overlay_session.go: the loop over the frames of a client, and what the end
-- of a session returns. The egress is an argument: its state, and what it does with a frame.
pub mod Laws
use vk_turn_proxy_go.Base.{
  ℕ, ◌≡◌, refl, ◌⊎◌, inl, inr, Bool, true, false, not, List, [], ◌∷◌, Option, none, some, arith,
  if◌then◌else◌, if_intro, Option-cases,
}
use vk_turn_proxy_go.Base.Result.{ok, err, Result-cases}
use vk_turn_proxy_go.Overlay.Frame.{
  FrameKind, datagram, stream_open, stream_data, stream_close, Frame, FrameError, read_frame,
}

-- The kinds that the egress is given.
abbrev pub is_carried : FrameKind → Bool
is_carried datagram = true
is_carried stream_open = true
is_carried stream_data = true
is_carried stream_close = true
is_carried _ = false

-- What a round of the loop meets: whether its calls fail, what is read, and whether the context was
-- cancelled by then.
pub record Round : Type 0 where
  pub cancelled : Bool
  pub deadline_fails : Bool
  pub read : Option (List ℕ)

pub data LoopError (E : Type 0) : Type 0 where
  set_deadline_failed : LoopError E
  frame_unread : FrameError → LoopError E
  egress_error : E → LoopError E

pub data Loop (E : Type 0) : Type 0 where
  going : Loop E
  returned : Option (LoopError E) → Loop E

module _ {A E : Type 0} (handle : Frame → A → A × Option E) where
  -- An error is not returned once the context was cancelled.
  pub stop : Bool → LoopError E → Loop E
  stop cancelled e = returned (if cancelled then none else some e)

  pub on_frame : Bool → Frame → A → A × Loop E
  unfolding stop
  on_frame cancelled f a =
      if not (is_carried f.kind)
      then (a, going)
      else let (b, e) = handle f a in
        elim e [ none ↦ (b, going) | some x ↦ (b, stop cancelled (egress_error x)) ]

  unfoldable pub client_round : Round → A → A × Loop E
  unfolding on_frame
  client_round r a =
      if r.deadline_fails
      then (a, returned (some set_deadline_failed))
      else elim (read_frame r.read) [
        | err x ↦ (a, stop r.cancelled (frame_unread x))
        | ok f ↦ on_frame r.cancelled f a
      ]

  unfoldable pub run_client_frames : List Round → A → A × Loop E
  unfolding client_round
  run_client_frames [] a = (a, going)
  run_client_frames (r ∷ rest) a =
      let (b, l) = client_round r a in
      let onward = run_client_frames rest b in
      elim l [ going ↦ onward | returned e ↦ (b, returned e) ]

-- The errors that `Run` joins, from what its two goroutines returned.
unfoldable pub joined : {E : Type 0} → Bool → Option E → Option E → List E
joined cancelled none none = []
joined cancelled none (some e) = if cancelled then [] else e ∷ []
joined cancelled (some d) none = if cancelled then [] else d ∷ []
joined cancelled (some d) (some e) = if cancelled then [] else d ∷ e ∷ []

Loop-cases :
    {E : Type 0} (l : Loop E) → (l ≡ going) ⊎ ((e : Option (LoopError E)) × (l ≡ returned e))
Loop-cases going = inl refl
Loop-cases (returned e) = inr (e, refl)
