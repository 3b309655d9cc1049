-- ===== src/Overlay/Frame/Canonical.antt =====
-- The bytes of a frame that was read: decoding loses nothing, so no two inputs decode alike.
use vk_turn_proxy_go.Base.{
  ℕ, ◌≡◌, refl, subst, ◌∙◌, inl, inr, true, List, [], ◌∷◌, ◌++◌, arith, length, take, drop, All,
  All-take, All-drop, length-take, length-drop, take-append-drop, take-all, leb, ◌==◌, Bool-cases,
}
use vk_turn_proxy_go.Base.Bytes.{IsByte, put_u64, get_u64}
use vk_turn_proxy_go.Base.Bytes.Laws.{put_u64-get_u64}
use vk_turn_proxy_go.Base.Result.{ok, ◌>>=◌, Result-cases, ok-injective}
use vk_turn_proxy_go.Overlay.Adapter.{adapter_code, adapter_from_code}
use vk_turn_proxy_go.Overlay.Adapter.Laws.{adapter_code-adapter_from_code}
use vk_turn_proxy_go.Overlay.Frame.{
  FrameKind, hello, hello_ack, hello_reject, datagram, stream_open, stream_data, stream_close,
  unknown, Frame, lift, kind_code, kind_of, marshal_kind, marshal, unmarshal_hello,
  unmarshal_datagram, unmarshal_stream, unmarshal_stream_data, unmarshal_kind, unmarshal,
}

-- What a read frame of kind `k` and body `body` satisfies.
abbrev Spells : FrameKind → List ℕ → Frame → Type 0
Spells k body f = (f.kind ≡ k) × (marshal_kind k f ≡ ok body)

take_eight :
    (xs : List ℕ)
    → leb 8 (length xs) ≡ true
    → All IsByte xs
    → put_u64 (get_u64 (take 8 xs)) ≡ take 8 xs
take_eight xs g a =
    put_u64-get_u64 (take 8 xs) (ground (arith, length-take 8 xs)) (All-take IsByte 8 xs a)

-- The eight bytes of a word and the rest make the whole again.
word_rest :
    (xs : List ℕ)
    → leb 8 (length xs) ≡ true
    → All IsByte xs
    → put_u64 (get_u64 (take 8 xs)) ++ drop 8 xs ≡ xs
word_rest xs g a = rw (take_eight xs g a) (take-append-drop 8 xs)

drop_sixteen : (xs : List ℕ) → drop 8 (drop 8 xs) ≡ drop 16 xs
drop_sixteen (a ∷ b ∷ c ∷ d ∷ e ∷ f ∷ g ∷ h ∷ xs) = refl
drop_sixteen _ = refl

unmarshal_datagram-Spells :
    (body : List ℕ) (f : Frame)
    → All IsByte body
    → unmarshal_datagram body ≡ ok f
    → Spells datagram body f
unfolding unmarshal_datagram marshal_kind
unmarshal_datagram-Spells body f a h = elim (Bool-cases (leb 8 (length body))) [
  | inl g ↦ subst (Spells datagram body) (ok-injective (rw g at h)) (refl, rw (word_rest body g a))
  | inr g ↦ cc (rw g at h)
]

unmarshal_stream_spells :
    (k : FrameKind) (body : List ℕ) (f : Frame)
    → All IsByte body
    → unmarshal_stream k body ≡ ok f
    → (f.kind ≡ k) × (put_u64 f.stream_id ≡ body)
unfolding unmarshal_stream
unmarshal_stream_spells k body f a h = elim (Bool-cases (length body == 8)) [
  | inl g ↦
      subst (λ (r : Frame). (r.kind ≡ k) × (put_u64 r.stream_id ≡ body)) (ok-injective (rw g at h))
        (refl, take_eight body (ground arith) a ∙ take-all 8 body (ground arith))
  | inr g ↦ cc (rw g at h)
]

unmarshal_stream_data-Spells :
    (body : List ℕ) (f : Frame)
    → All IsByte body
    → unmarshal_stream_data body ≡ ok f
    → Spells stream_data body f
unfolding unmarshal_stream_data marshal_kind
unmarshal_stream_data-Spells body f a h = elim (Bool-cases (leb 16 (length body))) [
  | inl g ↦ subst (Spells stream_data body) (ok-injective (rw g at h)) (
    refl,
    rw (
      ← drop_sixteen body,
      word_rest (drop 8 body) (ground (arith, length-drop 8 body)) (All-drop IsByte 8 body a),
      word_rest body (ground arith) a,
    ),
  )
  | inr g ↦ cc (rw g at h)
]

unmarshal_hello_spells :
    (k : FrameKind) (body : List ℕ) (f : Frame)
    → unmarshal_hello k body ≡ ok f
    → (f.kind ≡ k) × (code : ℕ) × (body ≡ code ∷ []) × (adapter_from_code code ≡ ok f.adapter)
unfolding unmarshal_hello
unmarshal_hello_spells k [] f h = cc
unmarshal_hello_spells k (c ∷ d ∷ rest) f h = cc
unmarshal_hello_spells k (c ∷ []) f h = elim (Result-cases (adapter_from_code c)) [
  | inl (adapter, e) ↦
      subst
        (λ (r : Frame).
          (r.kind ≡ k)
          × (code : ℕ) × (◌≡◌ {A = List ℕ} (c ∷ []) (code ∷ []))
          × (adapter_from_code code ≡ ok r.adapter))
        (ok-injective (rw e at h)) (refl, c, refl, e)
  | inr (x, e) ↦ cc (rw e at h)
]

hello_spells :
    (k : FrameKind) (body : List ℕ) (f : Frame)
    → unmarshal_hello k body ≡ ok f
    → (f.kind ≡ k) × ((do code ← lift (adapter_code f.adapter); ok (code ∷ [])) ≡ ok body)
hello_spells k body f h =
    let (kind, code, b, e) = unmarshal_hello_spells k body f h in
    (kind, rw (adapter_code-adapter_from_code code f.adapter e) (rw b))

unmarshal_kind-Spells :
    (k : FrameKind) (body : List ℕ) (f : Frame)
    → All IsByte body
    → unmarshal_kind k body ≡ ok f
    → Spells k body f
unfolding unmarshal_kind marshal_kind
unmarshal_kind-Spells hello body f a h = hello_spells hello body f h
unmarshal_kind-Spells hello_ack body f a h = hello_spells hello_ack body f h
unmarshal_kind-Spells hello_reject body f a h =
    subst (Spells hello_reject body) (ok-injective h) (refl, refl)
unmarshal_kind-Spells datagram body f a h = unmarshal_datagram-Spells body f a h
unmarshal_kind-Spells stream_open body f a h =
    let (kind, e) = unmarshal_stream_spells stream_open body f a h in (kind, rw e)
unmarshal_kind-Spells stream_close body f a h =
    let (kind, e) = unmarshal_stream_spells stream_close body f a h in (kind, rw e)
unmarshal_kind-Spells stream_data body f a h = unmarshal_stream_data-Spells body f a h
unmarshal_kind-Spells (unknown c) body f a h = cc

kind_code-kind_of : (c : ℕ) → kind_code (kind_of c) ≡ c
unfolding kind_of
kind_code-kind_of c = ground arith

-- Whatever bytes `UnmarshalFrame` accepts, `MarshalBinary` gives back for the frame that it read:
-- every frame has one encoding, and decoding drops nothing.
pub marshal-unmarshal :
    (bytes : List ℕ) (f : Frame) → All IsByte bytes → unmarshal bytes ≡ ok f → marshal f ≡ ok bytes
unfolding marshal unmarshal
marshal-unmarshal [] f a h = cc
marshal-unmarshal (c ∷ body) f a h =
    let (kind, e) = unmarshal_kind-Spells (kind_of c) body f a.1 h in
    simp kind (rw e (rw (kind_code-kind_of c)))
