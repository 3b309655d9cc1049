-- ===== src/Overlay/Frame/Sizes.antt =====
-- The size of a frame on the wire, and a frame sent by one endpoint and read by the other.
use vk_turn_proxy_go.Base.{
  ℕ, ◌+◌, ◌≤◌, ◌<◌, ◌≡◌, inl, inr, Bool, false, List, [], ◌∷◌, ◌++◌, some, arith, length,
  length-append, ◌==◌,
}
use vk_turn_proxy_go.Base.Bytes.{put_u64}
use vk_turn_proxy_go.Base.Bytes.Laws.{length-put_u64}
use vk_turn_proxy_go.Base.Result.{ok, ◌>>=◌, Result-cases, ok-injective}
use vk_turn_proxy_go.Overlay.Adapter.{adapter_code}
use vk_turn_proxy_go.Overlay.Frame.{
  FrameKind, hello, hello_ack, hello_reject, datagram, stream_open, stream_data, stream_close,
  unknown, Frame, Conn, lift, marshal_kind, marshal, read_frame, write_frame, max_frame_size,
}
use vk_turn_proxy_go.Overlay.Frame.RoundTrip.{HasWords, IsSendable, wire_view, unmarshal-marshal}

length_hello :
    (f : Frame) (bytes : List ℕ)
    → (do code ← lift (adapter_code f.adapter); ok (code ∷ [])) ≡ ok bytes
    → length bytes ≡ 1
length_hello f bytes h = elim (Result-cases (adapter_code f.adapter)) [
  | inl (code, e) ↦ rw (← ok-injective (rw e at h))
  | inr (x, e) ↦ cc (rw e at h)
]

length-marshal_kind :
    (k : FrameKind) (f : Frame) (bytes : List ℕ)
    → marshal_kind k f ≡ ok bytes
    → length bytes ≤ 16 + length f.payload + length f.reason
unfolding marshal_kind
length-marshal_kind hello f bytes h = omega (arith, length_hello f bytes h)
length-marshal_kind hello_ack f bytes h = omega (arith, length_hello f bytes h)
length-marshal_kind hello_reject f bytes h = rw (← ok-injective h) (omega arith)
length-marshal_kind datagram f bytes h =
    rw (← ok-injective h)
      (omega (arith, length-append (put_u64 f.route_id) f.payload, length-put_u64 f.route_id))
length-marshal_kind stream_open f bytes h =
    rw (← ok-injective h) (omega (arith, length-put_u64 f.stream_id))
length-marshal_kind stream_close f bytes h =
    rw (← ok-injective h) (omega (arith, length-put_u64 f.stream_id))
length-marshal_kind stream_data f bytes h = rw (← ok-injective h) (
    omega (
      arith,
      length-append (put_u64 f.stream_id) (put_u64 f.sequence ++ f.payload),
      length-append (put_u64 f.sequence) f.payload,
      length-put_u64 f.stream_id,
      length-put_u64 f.sequence,
    ))
length-marshal_kind (unknown c) f bytes h = cc

pub length-marshal :
    (f : Frame) (bytes : List ℕ)
    → marshal f ≡ ok bytes
    → length bytes ≤ 17 + length f.payload + length f.reason
unfolding marshal
length-marshal f bytes h = elim (Result-cases (marshal_kind f.kind f)) [
  | inl (rest, e) ↦
      rw (← ok-injective (rw e at h)) (omega (arith, length-marshal_kind f.kind f rest e))
  | inr (x, e) ↦ cc (rw e at h)
]

-- A connection none of whose calls fails now.
abbrev pub IsUp : Conn → Type 0
IsUp c = (c.deadline_fails ≡ false) × (c.write_fails ≡ false)

write_frame_up :
    (timed : Bool) (f : Frame) (c : Conn) (bytes : List ℕ)
    → IsUp c
    → marshal f ≡ ok bytes
    → write_frame timed f c ≡ (record c { sent = c.sent ++ bytes ∷ [] }, ok tt)
unfolding write_frame
write_frame_up timed f c bytes u e = ground arith

-- A frame that can be sent, with 64-bit identifiers and its payload and reason together below
-- 65,519 bytes, is written to a working connection as one message, with or without a deadline, and
-- the endpoint that reads this message gets exactly the fields that the frame's kind carries.
pub read_frame-write_frame :
    (timed : Bool) (f : Frame) (c : Conn)
    → HasWords f
    → IsSendable f.kind f
    → length f.payload + length f.reason < 65519
    → IsUp c
    → (bytes : List ℕ) × (write_frame timed f c ≡ (record c { sent = c.sent ++ bytes ∷ [] }, ok tt))
      × (read_frame (some bytes) ≡ ok (wire_view f.kind f))
unfolding read_frame
read_frame-write_frame timed f c w s small u =
    let (bytes, e, r) = unmarshal-marshal f w s in
    let short : (length bytes == max_frame_size) ≡ false =
      ground (arith, length-marshal f bytes e) in
    (bytes, write_frame_up timed f c bytes u e, rw short r)
