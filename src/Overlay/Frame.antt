-- ===== src/Overlay/Frame.antt =====
-- internal/overlay/types.go: the overlay frames, their bytes, and the endpoint that reads and writes
-- them. A byte slice is a list of numbers below 256, and `Reason` is such a list too, since the
-- conversions between it and the payload copy bytes.
pub mod Canonical
pub mod RoundTrip
pub mod Sizes
use Prim.Native.String.{String}
use vk_turn_proxy_go.Base.{
  ℕ, ◌+◌, ◌*◌, Bool, true, false, List, [], ◌∷◌, ◌++◌, Option, none, some, ◌==◌, leb, if◌then◌else◌,
  length, take, drop,
}
use vk_turn_proxy_go.Base.Bytes.{put_u64, get_u64}
use vk_turn_proxy_go.Base.Result.{Result, ok, err, ◌>>=◌, ◌>>◌, guard}
use vk_turn_proxy_go.Overlay.Adapter.{AdapterKind, AdapterError, adapter_code, adapter_from_code}

abbrev pub default_datagram_buffer_size : ℕ
default_datagram_buffer_size = 1600

abbrev pub stream_chunk_size : ℕ
stream_chunk_size = 1024

abbrev pub max_frame_size : ℕ
max_frame_size = 64 * 1024

-- `unknown` holds the values of the `uint8` that name no kind.
pub data FrameKind : Type 0 where
  hello hello_ack hello_reject datagram stream_open stream_data stream_close : FrameKind
  unknown : ℕ → FrameKind

-- `byte(f.Kind)`.
abbrev pub kind_code : FrameKind → ℕ
kind_code hello = 1
kind_code hello_ack = 2
kind_code hello_reject = 3
kind_code datagram = 4
kind_code stream_open = 5
kind_code stream_data = 6
kind_code stream_close = 7
kind_code (unknown c) = c

-- `FrameKind(data[0])`.
unfoldable pub kind_of : ℕ → FrameKind
kind_of c =
    if c == 1
    then hello
    else if c == 2
    then hello_ack
    else if c == 3
    then hello_reject
    else if c == 4
    then datagram
    else if c == 5
    then stream_open
    else if c == 6
    then stream_data
    else if c == 7
    then stream_close
    else unknown c

pub record Frame : Type 0 where
  pub kind : FrameKind
  pub adapter : AdapterKind
  pub route_id : ℕ  -- uint64
  pub stream_id : ℕ  -- uint64
  pub sequence : ℕ  -- uint64
  pub payload : List ℕ
  pub reason : List ℕ

-- `Frame{Kind: kind}`.
abbrev pub blank : FrameKind → Frame
blank k = record {
  kind = k;
  adapter = "";
  route_id = 0;
  stream_id = 0;
  sequence = 0;
  payload = [];
  reason = [];
}

pub data FrameError : Type 0 where
  adapter_error : AdapterError → FrameError
  unsupported_kind : FrameKind → FrameError
  empty_frame : FrameError
  malformed : FrameKind → FrameError
  exceeded : ℕ → FrameError
  set_deadline_failed : FrameKind → FrameError
  write_failed : FrameKind → FrameError
  read_failed : FrameError

-- An adapter's error returned as it is.
abbrev pub lift {ℓ} : {A : Type ℓ} → Result AdapterError A → Result FrameError A
lift (ok a) = ok a
lift (err e) = err (adapter_error e)

marshal_kind : FrameKind → Frame → Result FrameError (List ℕ)
marshal_kind hello f = do code ← lift (adapter_code f.adapter); ok (code ∷ [])
marshal_kind hello_ack f = do code ← lift (adapter_code f.adapter); ok (code ∷ [])
marshal_kind hello_reject f = ok f.reason
marshal_kind datagram f = ok (put_u64 f.route_id ++ f.payload)
marshal_kind stream_open f = ok (put_u64 f.stream_id)
marshal_kind stream_close f = ok (put_u64 f.stream_id)
marshal_kind stream_data f = ok (put_u64 f.stream_id ++ (put_u64 f.sequence ++ f.payload))
marshal_kind (unknown c) f = err (unsupported_kind (unknown c))

unfoldable pub marshal : Frame → Result FrameError (List ℕ)
unfolding marshal_kind
marshal f = do rest ← marshal_kind f.kind f; ok (kind_code f.kind ∷ rest)

unmarshal_hello : FrameKind → List ℕ → Result FrameError Frame
unmarshal_hello k (code ∷ []) = do
  adapter ← lift (adapter_from_code code)
  ok (record (blank k) { adapter = adapter })
unmarshal_hello k _ = err (malformed k)

unmarshal_datagram : List ℕ → Result FrameError Frame
unmarshal_datagram body = do
  guard (leb 8 (length body)) (malformed datagram)
  ok (record (blank datagram) { route_id = get_u64 (take 8 body); payload = drop 8 body })

unmarshal_stream : FrameKind → List ℕ → Result FrameError Frame
unmarshal_stream k body = do
  guard (length body == 8) (malformed k)
  ok (record (blank k) { stream_id = get_u64 (take 8 body) })

unmarshal_stream_data : List ℕ → Result FrameError Frame
unmarshal_stream_data body = do
  guard (leb 16 (length body)) (malformed stream_data)
  ok (record (blank stream_data) {
    stream_id = get_u64 (take 8 body);
    sequence = get_u64 (take 8 (drop 8 body));
    payload = drop 16 body;
  })

unmarshal_kind : FrameKind → List ℕ → Result FrameError Frame
unfolding unmarshal_hello unmarshal_datagram unmarshal_stream unmarshal_stream_data
unmarshal_kind hello body = unmarshal_hello hello body
unmarshal_kind hello_ack body = unmarshal_hello hello_ack body
unmarshal_kind hello_reject body = ok (record (blank hello_reject) { reason = body })
unmarshal_kind datagram body = unmarshal_datagram body
unmarshal_kind stream_open body = unmarshal_stream stream_open body
unmarshal_kind stream_close body = unmarshal_stream stream_close body
unmarshal_kind stream_data body = unmarshal_stream_data body
unmarshal_kind (unknown c) body = err (unsupported_kind (unknown c))

unfoldable pub unmarshal : List ℕ → Result FrameError Frame
unfolding unmarshal_kind kind_of
unmarshal [] = err empty_frame
unmarshal (c ∷ body) = unmarshal_kind (kind_of c) body

-- `Endpoint.ReadFrame`, given what `conn.Read` into the buffer of `max_frame_size` bytes returned:
-- the bytes that it filled in, or `none` for its error.
unfoldable pub read_frame : Option (List ℕ) → Result FrameError Frame
read_frame none = err read_failed
read_frame (some bytes) =
    if length bytes == max_frame_size then err (exceeded max_frame_size) else unmarshal bytes

-- The connection below an endpoint: what it was given to send, and which of its calls fail now.
pub record Conn : Type 0 where
  pub sent : List (List ℕ)
  pub deadline_fails : Bool
  pub write_fails : Bool

put : FrameKind → List ℕ → Conn → Conn × Result FrameError (Unit {0})
put k bytes c =
    if c.write_fails
    then (c, err (write_failed k))
    else (record c { sent = c.sent ++ bytes ∷ [] }, ok tt)

-- `Endpoint.writeFrame`; `timed` says that a deadline is given, as `WriteFrameWithDeadline` does for
-- a positive timeout, and `WriteFrame` does not.
unfoldable pub write_frame : Bool → Frame → Conn → Conn × Result FrameError (Unit {0})
unfolding put
write_frame timed f c = elim (marshal f) [
  | err e ↦ (c, err e)
  | ok bytes ↦
      if timed
      then if c.deadline_fails then (c, err (set_deadline_failed f.kind)) else put f.kind bytes c
      else put f.kind bytes c
]
