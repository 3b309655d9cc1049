-- ===== src/Overlay/Frame/RoundTrip.antt =====
-- A frame read back from its bytes, and the bytes of a frame that was read.
use mathlib.Core.List.{append_assoc}
use vk_turn_proxy_go.Base.{
  ℕ, ◌+◌, ◌≡◌, ◌↔◌, refl, sym, ap, ◌∙◌, inl, inr, true, List, [], ◌∷◌, ◌++◌, arith, length, take,
  drop, take-all, length-append, take-append, drop-append, leb, ◌==◌,
}
use vk_turn_proxy_go.Base.Bytes.{IsU64, put_u64}
use vk_turn_proxy_go.Base.Bytes.Laws.{length-put_u64, get_u64-put_u64}
use vk_turn_proxy_go.Base.Result.{ok, ◌>>=◌, Result-cases, ok-injective}
use vk_turn_proxy_go.Overlay.Adapter.{normalize_adapter, adapter_code}
use vk_turn_proxy_go.Overlay.Adapter.Laws.{
  IsSupported, adapter_from_code-adapter_code, adapter_code_total, IsSupported-of_adapter_code,
}
use vk_turn_proxy_go.Overlay.Frame.{
  FrameKind, hello, hello_ack, hello_reject, datagram, stream_open, stream_data, stream_close,
  unknown, Frame, lift, blank, kind_code, kind_of, marshal_kind, marshal, unmarshal_hello,
  unmarshal_datagram, unmarshal_stream, unmarshal_stream_data, unmarshal_kind, unmarshal,
}

-- What the peer learns of a frame: the fields that its kind carries, the adapter by its usual name.
abbrev pub wire_view : FrameKind → Frame → Frame
wire_view hello f = record (blank hello) { adapter = normalize_adapter f.adapter }
wire_view hello_ack f = record (blank hello_ack) { adapter = normalize_adapter f.adapter }
wire_view hello_reject f = record (blank hello_reject) { reason = f.reason }
wire_view datagram f = record (blank datagram) { route_id = f.route_id; payload = f.payload }
wire_view stream_open f = record (blank stream_open) { stream_id = f.stream_id }
wire_view stream_close f = record (blank stream_close) { stream_id = f.stream_id }
wire_view stream_data f = record (blank stream_data) {
  stream_id = f.stream_id;
  sequence = f.sequence;
  payload = f.payload;
}
wire_view (unknown c) f = blank (unknown c)

-- The identifiers of a frame are 64-bit words.
pub record HasWords (f : Frame) : Type 0 where
  pub route_range : IsU64 f.route_id
  pub stream_range : IsU64 f.stream_id
  pub sequence_range : IsU64 f.sequence

-- The frames that have bytes.
abbrev pub IsSendable : FrameKind → Frame → Type 0
IsSendable hello f = IsSupported f.adapter
IsSendable hello_ack f = IsSupported f.adapter
IsSendable (unknown c) f = ⊥
IsSendable _ f = Unit

take_word : (n : ℕ) (rest : List ℕ) → take 8 (put_u64 n ++ rest) ≡ put_u64 n
take_word n rest = take-append 8 (put_u64 n) rest (length-put_u64 n)

drop_word : (n : ℕ) (rest : List ℕ) → drop 8 (put_u64 n ++ rest) ≡ rest
drop_word n rest = drop-append 8 (put_u64 n) rest (length-put_u64 n)

length_word : (n : ℕ) (rest : List ℕ) → length (put_u64 n ++ rest) ≡ 8 + length rest
length_word n rest = omega (arith, length-append (put_u64 n) rest, length-put_u64 n)

unmarshal_hello_lem :
    (k : FrameKind) (f : Frame) (code : ℕ)
    → adapter_code f.adapter ≡ ok code
    → unmarshal_hello k (code ∷ [])
      ≡ ok (record (blank k) { adapter = normalize_adapter f.adapter })
unfolding unmarshal_hello
unmarshal_hello_lem k f code h = rw (adapter_from_code-adapter_code f.adapter code h)

unmarshal_hello_of :
    (k : FrameKind) (f : Frame) (bytes : List ℕ)
    → (do code ← lift (adapter_code f.adapter); ok (code ∷ [])) ≡ ok bytes
    → unmarshal_hello k bytes ≡ ok (record (blank k) { adapter = normalize_adapter f.adapter })
unmarshal_hello_of k f bytes h = elim (Result-cases (adapter_code f.adapter)) [
  | inl (code, e) ↦ rw (← ok-injective (rw e at h)) (unmarshal_hello_lem k f code e)
  | inr (x, e) ↦ cc (rw e at h)
]

unmarshal_datagram_lem :
    (f : Frame)
    → IsU64 f.route_id
    → unmarshal_datagram (put_u64 f.route_id ++ f.payload) ≡ ok (wire_view datagram f)
unfolding unmarshal_datagram
unmarshal_datagram_lem f h =
    let g : leb 8 (length (put_u64 f.route_id ++ f.payload)) ≡ true =
      ground (arith, length_word f.route_id f.payload) in
    rw (g, take_word, drop_word, get_u64-put_u64 f.route_id h)

unmarshal_stream_lem :
    (k : FrameKind) (n : ℕ)
    → IsU64 n
    → unmarshal_stream k (put_u64 n) ≡ ok (record (blank k) { stream_id = n })
unfolding unmarshal_stream
unmarshal_stream_lem k n h =
    let g : (length (put_u64 n) == 8) ≡ true = ground (arith, length-put_u64 n) in
    let t : take 8 (put_u64 n) ≡ put_u64 n = take-all 8 (put_u64 n) (length-put_u64 n) in
    rw (g, t, get_u64-put_u64 n h)

drop_words : (m n : ℕ) (rest : List ℕ) → drop 16 (put_u64 m ++ (put_u64 n ++ rest)) ≡ rest
drop_words m n rest =
    ap (drop 16) (sym (append_assoc (put_u64 m) (put_u64 n) rest))
    ∙ drop-append 16 (put_u64 m ++ put_u64 n) rest
        (omega (arith, length_word m (put_u64 n), length-put_u64 n))

unmarshal_stream_data_lem :
    (f : Frame)
    → IsU64 f.stream_id
    → IsU64 f.sequence
    → unmarshal_stream_data (put_u64 f.stream_id ++ (put_u64 f.sequence ++ f.payload))
      ≡ ok (wire_view stream_data f)
unfolding unmarshal_stream_data
unmarshal_stream_data_lem f h k =
    let g : leb 16 (length (put_u64 f.stream_id ++ (put_u64 f.sequence ++ f.payload))) ≡ true =
      ground (
        arith,
        length_word f.stream_id (put_u64 f.sequence ++ f.payload),
        length_word f.sequence f.payload,
      ) in
    rw (g, drop_words, take_word f.stream_id, drop_word, take_word f.sequence)
      (rw (get_u64-put_u64 f.stream_id h, get_u64-put_u64 f.sequence k))

unmarshal_kind_lem :
    (k : FrameKind) (f : Frame) (bytes : List ℕ)
    → HasWords f
    → marshal_kind k f ≡ ok bytes
    → unmarshal_kind k bytes ≡ ok (wire_view k f)
unfolding marshal_kind unmarshal_kind
unmarshal_kind_lem hello f bytes w h = unmarshal_hello_of hello f bytes h
unmarshal_kind_lem hello_ack f bytes w h = unmarshal_hello_of hello_ack f bytes h
unmarshal_kind_lem hello_reject f bytes w h = rw (← ok-injective h)
unmarshal_kind_lem datagram f bytes w h =
    rw (← ok-injective h) (unmarshal_datagram_lem f w.route_range)
unmarshal_kind_lem stream_open f bytes w h =
    rw (← ok-injective h) (unmarshal_stream_lem stream_open f.stream_id w.stream_range)
unmarshal_kind_lem stream_close f bytes w h =
    rw (← ok-injective h) (unmarshal_stream_lem stream_close f.stream_id w.stream_range)
unmarshal_kind_lem stream_data f bytes w h =
    rw (← ok-injective h) (unmarshal_stream_data_lem f w.stream_range w.sequence_range)
unmarshal_kind_lem (unknown c) f bytes w h = cc

kind_of-kind_code : (k : FrameKind) (f : Frame) → IsSendable k f → kind_of (kind_code k) ≡ k
unfolding kind_of
kind_of-kind_code hello f s = refl
kind_of-kind_code hello_ack f s = refl
kind_of-kind_code hello_reject f s = refl
kind_of-kind_code datagram f s = refl
kind_of-kind_code stream_open f s = refl
kind_of-kind_code stream_data f s = refl
kind_of-kind_code stream_close f s = refl
kind_of-kind_code (unknown c) f s = absurd s

IsSupported-of_lift :
    (f : Frame) (bytes : List ℕ)
    → (do code ← lift (adapter_code f.adapter); ok (code ∷ [])) ≡ ok bytes
    → IsSupported f.adapter
IsSupported-of_lift f bytes h = elim (Result-cases (adapter_code f.adapter)) [
  | inl (code, e) ↦ IsSupported-of_adapter_code f.adapter code e
  | inr (x, e) ↦ cc (rw e at h)
]

IsSendable-of_marshal :
    (k : FrameKind) (f : Frame) (bytes : List ℕ) → marshal_kind k f ≡ ok bytes → IsSendable k f
unfolding marshal_kind
IsSendable-of_marshal hello f bytes h = IsSupported-of_lift f bytes h
IsSendable-of_marshal hello_ack f bytes h = IsSupported-of_lift f bytes h
IsSendable-of_marshal hello_reject f bytes h = tt
IsSendable-of_marshal datagram f bytes h = tt
IsSendable-of_marshal stream_open f bytes h = tt
IsSendable-of_marshal stream_data f bytes h = tt
IsSendable-of_marshal stream_close f bytes h = tt
IsSendable-of_marshal (unknown c) f bytes h = cc

marshal_kind_total :
    (k : FrameKind) (f : Frame) → IsSendable k f → (bytes : List ℕ) × (marshal_kind k f ≡ ok bytes)
unfolding marshal_kind
marshal_kind_total hello f s =
    let (code, e, b) = adapter_code_total f.adapter s in (code ∷ [], rw e)
marshal_kind_total hello_ack f s =
    let (code, e, b) = adapter_code_total f.adapter s in (code ∷ [], rw e)
marshal_kind_total hello_reject f s = (f.reason, refl)
marshal_kind_total datagram f s = (put_u64 f.route_id ++ f.payload, refl)
marshal_kind_total stream_open f s = (put_u64 f.stream_id, refl)
marshal_kind_total stream_data f s =
    (put_u64 f.stream_id ++ (put_u64 f.sequence ++ f.payload), refl)
marshal_kind_total stream_close f s = (put_u64 f.stream_id, refl)
marshal_kind_total (unknown c) f s = absurd s

IsSendable-of_ok : (f : Frame) (bytes : List ℕ) → marshal f ≡ ok bytes → IsSendable f.kind f
unfolding marshal
IsSendable-of_ok f bytes h = elim (Result-cases (marshal_kind f.kind f)) [
  | inl (rest, e) ↦ IsSendable-of_marshal f.kind f rest e
  | inr (x, e) ↦ cc (rw e at h)
]

-- `MarshalBinary` succeeds exactly on the frames of a known kind whose adapter, where the kind
-- carries one, is supported.
pub marshal_iff : (f : Frame) → IsSendable f.kind f ↔ ((bytes : List ℕ) × (marshal f ≡ ok bytes))
unfolding marshal
marshal_iff f = (
  λ s. let (rest, e) = marshal_kind_total f.kind f s in (kind_code f.kind ∷ rest, rw e),
  λ m. IsSendable-of_ok f m.0 m.1,
)

-- A frame that can be sent, with 64-bit identifiers, has bytes from which `UnmarshalFrame` reads
-- exactly the fields that its kind carries, the adapter by its usual name.
pub unmarshal-marshal :
    (f : Frame)
    → HasWords f
    → IsSendable f.kind f
    → (bytes : List ℕ) × (marshal f ≡ ok bytes) × (unmarshal bytes ≡ ok (wire_view f.kind f))
unfolding marshal unmarshal
unmarshal-marshal f w s =
    let (rest, e) = marshal_kind_total f.kind f s in
    (
      kind_code f.kind ∷ rest,
      rw e,
      rw (kind_of-kind_code f.kind f s) (unmarshal_kind_lem f.kind f rest w e),
    )
