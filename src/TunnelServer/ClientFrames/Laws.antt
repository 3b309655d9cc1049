-- ===== src/TunnelServer/ClientFrames/Laws.antt =====
-- What the egress is given of what a client sends.
use vk_turn_proxy_go.Base.{
  ◌≡◌, refl, ◌∙◌, inl, inr, Bool, true, false, not, List, [], ◌∷◌, Option, none, some, arith,
  if◌then◌else◌, if_intro, Option-cases, Bool-cases,
}
use vk_turn_proxy_go.Base.Result.{ok, err, Result-cases}
use vk_turn_proxy_go.Overlay.Frame.{
  FrameKind, hello, hello_ack, hello_reject, datagram, stream_open, stream_data, stream_close,
  unknown, Frame, read_frame,
}
use vk_turn_proxy_go.TunnelServer.ClientFrames.{
  is_carried, Round, LoopError, set_deadline_failed, frame_unread, egress_error, Loop, going,
  returned, stop, on_frame, client_round, run_client_frames, Loop-cases,
}

module _ {A E : Type 0} (handle : Frame → A → A × Option E) (P : A → Type 0)
    (kept : (f : Frame) (a : A) → is_carried f.kind ≡ true → P a → P (handle f a).0) where
  on_frame_keeps :
      (cancelled : Bool) (f : Frame) (a : A) → P a → P (on_frame handle cancelled f a).0
  unfolding on_frame
  on_frame_keeps cancelled f a h =
      if_intro (λ (x : A × Loop E). P x.0) (not (is_carried f.kind)) _ _ (λ e. h)
        (λ e.
          let k : P (handle f a).0 = kept f a (ground arith) h in
          elim (Option-cases (handle f a).1) [
            | inl q ↦ rw (q, on_frame) k
            | inr (x, q) ↦ rw (q, on_frame) k
          ])

  client_round_keeps : (r : Round) (a : A) → P a → P (client_round handle r a).0
  unfolding client_round
  client_round_keeps r a h =
      if_intro (λ (x : A × Loop E). P x.0) r.deadline_fails _ _ (λ e. h)
        (λ e. elim (Result-cases (read_frame r.read)) [
          | inl (f, q) ↦ rw q (on_frame_keeps r.cancelled f a h)
          | inr (x, q) ↦ rw q h
        ])

  -- Whatever a client sends, the loop shows the egress only frames of the four kinds that it
  -- carries: what these keep of the egress, every run of the loop keeps.
  pub run_client_frames_keeps :
      (rounds : List Round) (a : A) → P a → P (run_client_frames handle rounds a).0
  unfolding run_client_frames
  run_client_frames_keeps [] a h = h
  run_client_frames_keeps (r ∷ rest) a h =
      let b = (client_round handle r a).0 in
      let k = client_round_keeps r a h in
      elim (Loop-cases (client_round handle r a).1) [
        | inl e ↦ rw (e, run_client_frames) (run_client_frames_keeps rest b k)
        | inr (x, e) ↦ rw (e, run_client_frames) k
      ]

-- A frame, and whether the context was cancelled when it was read.
abbrev pub Heard : Type 0
Heard = Bool × Frame

-- Without the frames of the handshake and those of a kind that is not known.
abbrev pub unless_handshake : FrameKind → Heard → List Heard → List Heard
unless_handshake hello f fs = fs
unless_handshake hello_ack f fs = fs
unless_handshake hello_reject f fs = fs
unless_handshake (unknown n) f fs = fs
unless_handshake datagram f fs = f ∷ fs
unless_handshake stream_open f fs = f ∷ fs
unless_handshake stream_data f fs = f ∷ fs
unless_handshake stream_close f fs = f ∷ fs

abbrev pub carried : List Heard → List Heard
carried [] = []
carried (f ∷ fs) = unless_handshake f.1.kind f (carried fs)

-- The errors of a cancelled context are dropped.
abbrev pub unless_cancelled : {E : Type 0} → Bool → LoopError E → Option (LoopError E)
unless_cancelled true e = none
unless_cancelled false e = some e

-- The frames that arrive until a deadline is not set or a frame is not read, and what this returns.
abbrev pub heard : {E : Type 0} → List Round → List Heard × Loop E
heard [] = ([], going)
heard (r ∷ rs) =
    let onward = heard rs in
    if r.deadline_fails
    then ([], returned (some set_deadline_failed))
    else elim (read_frame r.read) [
      | err x ↦ ([], returned (unless_cancelled r.cancelled (frame_unread x)))
      | ok f ↦ ((r.cancelled, f) ∷ onward.0, onward.1)
    ]

module _ {A E : Type 0} (handle : Frame → A → A × Option E) where
  -- An egress that takes frames one after the other until it refuses one; `l` is what is returned if
  -- it takes them all.
  abbrev pub take_all : List Heard → Loop E → A → A × Loop E
  take_all [] l a = (a, l)
  take_all ((cancelled, f) ∷ fs) l a =
      let onward = take_all fs l (handle f a).0 in
      elim (handle f a).1 [
        | none ↦ onward
        | some x ↦ ((handle f a).0, returned (unless_cancelled cancelled (egress_error x)))
      ]

  abbrev onward_of : (A × Loop E) → List Heard → Loop E → A × Loop E
  onward_of x fs l = elim x.1 [ going ↦ take_all fs l x.0 | returned e ↦ (x.0, returned e) ]

  stop_lem :
      (cancelled : Bool) (e : LoopError E)
      → stop handle cancelled e ≡ returned (unless_cancelled cancelled e)
  unfolding stop
  stop_lem true e = refl
  stop_lem false e = refl

  answered :
      (o : Option E) (cancelled : Bool) (b : A) (fs : List Heard) (l : Loop E)
      → onward_of
          (elim o [ none ↦ (b, going) | some x ↦ (b, stop handle cancelled (egress_error x)) ])
          fs
          l
        ≡ (elim o [
          | none ↦ take_all fs l b
          | some x ↦ (b, returned (unless_cancelled cancelled (egress_error x)))
        ])
  answered none cancelled b fs l = refl
  answered (some x) cancelled b fs l = rw (stop_lem cancelled (egress_error x)) refl

  carried-unless_handshake :
      (k : FrameKind) (cancelled : Bool) (f : Frame) (fs : List Heard) (l : Loop E) (a : A)
      → onward_of
          (if not (is_carried k)
            then (a, going)
            else let (b, e) = handle f a in
              elim e [ none ↦ (b, going) | some x ↦ (b, stop handle cancelled (egress_error x)) ])
          fs
          l
        ≡ take_all (unless_handshake k (cancelled, f) fs) l a
  carried-unless_handshake hello cancelled f fs l a = refl
  carried-unless_handshake hello_ack cancelled f fs l a = refl
  carried-unless_handshake hello_reject cancelled f fs l a = refl
  carried-unless_handshake (unknown n) cancelled f fs l a = refl
  carried-unless_handshake datagram cancelled f fs l a =
      answered (handle f a).1 cancelled (handle f a).0 fs l
  carried-unless_handshake stream_open cancelled f fs l a =
      answered (handle f a).1 cancelled (handle f a).0 fs l
  carried-unless_handshake stream_data cancelled f fs l a =
      answered (handle f a).1 cancelled (handle f a).0 fs l
  carried-unless_handshake stream_close cancelled f fs l a =
      answered (handle f a).1 cancelled (handle f a).0 fs l

  on_frame-take_all :
      (cancelled : Bool) (f : Frame) (fs : List Heard) (l : Loop E) (a : A)
      → onward_of (on_frame handle cancelled f a) fs l
        ≡ take_all (unless_handshake f.kind (cancelled, f) fs) l a
  unfolding on_frame
  on_frame-take_all cancelled f fs l a = carried-unless_handshake f.kind cancelled f fs l a

  -- A round, and what comes after it.
  after_round :
      (x : A × Loop E) (rs : List Round)
      → run_client_frames handle rs x.0 ≡ take_all (carried (heard {E = E} rs).0) (heard rs).1 x.0
      → elim x.1 [ going ↦ run_client_frames handle rs x.0 | returned e ↦ (x.0, returned e) ]
        ≡ onward_of x (carried (heard {E = E} rs).0) (heard rs).1
  after_round (b, going) rs h = h
  after_round (b, returned e) rs h = refl

  client_round-take_all :
      (r : Round) (rs : List Round) (a : A)
      → onward_of (client_round handle r a) (carried (heard {E = E} rs).0) (heard rs).1
        ≡ take_all (carried (heard {E = E} (r ∷ rs)).0) (heard (r ∷ rs)).1 a
  unfolding client_round
  client_round-take_all r rs a = elim (Bool-cases r.deadline_fails) [
    | inl d ↦ rw d refl
    | inr d ↦ elim (Result-cases (read_frame r.read)) [
      | inl (f, q) ↦
          rw (d, q) (on_frame-take_all r.cancelled f (carried (heard {E = E} rs).0) (heard rs).1 a)
      | inr (x, q) ↦ rw (d, q, stop_lem r.cancelled (frame_unread x)) refl
    ]
  ]

  -- Whatever a client sends, the loop does what the egress does that is given, in order, the frames
  -- that arrive and are of none of the kinds of the handshake, nor of an unknown kind, until it
  -- refuses one; and it returns that refusal, or what ended the reading, each dropped where
  -- the context was cancelled, but for a deadline that is not set.
  pub run_client_frames-take_all :
      (rs : List Round) (a : A)
      → run_client_frames handle rs a ≡ take_all (carried (heard {E = E} rs).0) (heard rs).1 a
  unfolding run_client_frames
  run_client_frames-take_all [] a = refl
  run_client_frames-take_all (r ∷ rs) a =
      after_round (client_round handle r a) rs
        (run_client_frames-take_all rs (client_round handle r a).0)
      ∙ client_round-take_all r rs a
