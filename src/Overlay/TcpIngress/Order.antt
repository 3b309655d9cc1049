-- ===== src/Overlay/TcpIngress/Order.antt =====
-- The order of the bytes of a stream.
use mathlib.Core.List.{append-nil, append_assoc}
use vk_turn_proxy_go.Base.{
  ℕ, zero, suc, ◌+◌, ◌%◌, ◌^◌, ◌<◌, ◌≡◌, sym, ap, ◌∙◌, Bool, true, false, not, ◌||◌, List, [], ◌∷◌,
  ◌++◌, some, arith, ◌==◌, if◌then◌else◌, if_intro, length, take, get_elem?, All, map,
  lt-length_of_get_elem?,
}
use vk_turn_proxy_go.Overlay.Frame.{Frame}
use vk_turn_proxy_go.Overlay.TcpIngress.{Stream, Failures}
use vk_turn_proxy_go.Overlay.TcpIngress.Loops.{write_inbound, write_all, data_frames, count_sent}

abbrev pub works : Failures
works = record { deadline = false; write = false }

-- The frame is the `k`-th of a list, for some `k`.
abbrev pub IsFrom : List Frame → Frame → Type 0
IsFrom fs f = (k : ℕ) × (get_elem? fs k ≡ some f)

take_suc {ℓ} :
    {A : Type ℓ} (xs : List A) (i : ℕ) (x : A)
    → get_elem? xs i ≡ some x
    → take (i + 1) xs ≡ take i xs ++ x ∷ []
take_suc [] i x h = cc
take_suc (y ∷ xs) zero x h = cc
take_suc (y ∷ xs) (suc i) x h =
    let e : suc i + 1 ≡ suc (i + 1) = omega arith in rw e (ap (λ l. y ∷ l) (take_suc xs i x h))

-- Where a frame of the reader stands, and what it carries.
get_elem?-data_frames :
    (cs : List (List ℕ)) (s : Stream) (k : ℕ) (f : Frame)
    → s.send_sequence + length cs < 2 ^ 64
    → get_elem? (data_frames cs s) k ≡ some f
    → (f.sequence ≡ s.send_sequence + k) × (get_elem? cs k ≡ some f.payload)
unfolding data_frames
get_elem?-data_frames [] s k f l h = cc
get_elem?-data_frames (c ∷ cs) s zero f l h = (ground arith, cc)
get_elem?-data_frames (c ∷ cs) s (suc k) f l h =
    let (p, q) = get_elem?-data_frames cs (count_sent s) k f (omega arith) h in
    (omega (arith, p), q)

module _ (cs : List (List ℕ)) (short : length cs < 2 ^ 64) where
  -- The frame carries the piece of the stream that its number says.
  abbrev IsPiece : Failures × Frame → Type 0
  IsPiece x = get_elem? cs x.1.sequence ≡ some x.1.payload

  write_all_pieces :
      (fs : List (Failures × Frame)) (s : Stream)
      → s.written ≡ take s.recv_sequence cs
      → All IsPiece fs
      → (n : ℕ) × ((write_all fs s).written ≡ take n cs)
  unfolding write_all write_inbound
  write_all_pieces [] s h a = (s.recv_sequence, h)
  write_all_pieces ((x, f) ∷ fs) s h a =
      let Q : Stream × Bool → Type 0 =
        λ r. (n : ℕ) × ((if r.1 then write_all fs r.0 else r.0).written ≡ take n cs) in
      if_intro Q (not (f.sequence == s.recv_sequence)) _ _ (λ e. (s.recv_sequence, h))
        (λ e.
          if_intro Q (x.deadline || x.write) _ _ (λ d. (s.recv_sequence, h))
            (λ d.
              let q : f.sequence ≡ s.recv_sequence = ground arith in
              let g : get_elem? cs s.recv_sequence ≡ some f.payload = rw q at a.0 in
              let l = lt-length_of_get_elem? cs s.recv_sequence f.payload g in
              let m : (s.recv_sequence + 1) % 2 ^ 64 ≡ s.recv_sequence + 1 = omega arith in
              write_all_pieces fs _ (rw (m, h) (sym (take_suc cs s.recv_sequence f.payload g)))
                a.1))

pieces :
    (cs : List (List ℕ)) (s : Stream) (fs : List (Failures × Frame)) (l : length cs < 2 ^ 64)
    → s.send_sequence ≡ 0
    → All (λ (x : Failures × Frame). IsFrom (data_frames cs s) x.1) fs
    → All (IsPiece cs l) fs
pieces cs s [] l z a = tt
pieces cs s ((x, f) ∷ fs) l z a =
    let (k, h) = a.0 in
    let (p, q) = get_elem?-data_frames cs s k f (omega arith) h in
    let e : f.sequence ≡ k = omega arith in (rw e q, pieces cs s fs l z a.1)

-- Frames of a reader that reach a writer in order, on a connection that works, are written as they
-- were read.
pub write_all-data_frames :
    (cs : List (List ℕ)) (s t : Stream)
    → s.send_sequence ≡ t.recv_sequence
    → (write_all (map (λ f. (works, f)) (data_frames cs s)) t).written ≡ t.written ++ cs
unfolding write_all data_frames write_inbound
write_all-data_frames [] s t h = sym (append-nil t.written)
write_all-data_frames (c ∷ cs) s t h =
    let g : (s.send_sequence == t.recv_sequence) ≡ true = ground arith in
    rw g (
      write_all-data_frames cs (count_sent s)
        (record t { recv_sequence = (t.recv_sequence + 1) % 2 ^ 64; written = t.written ++ c ∷ [] })
        (ap (λ n. (n + 1) % 2 ^ 64) h)
      ∙ append_assoc t.written (c ∷ []) cs)

-- Whatever happens to the frames of a reader on their way, lost, repeated or out of order, and
-- whatever local writes fail, a writer that begins with the stream writes a prefix of what was read,
-- piece by piece, as long as the stream has fewer than 2^64 pieces.
pub write_all-data_frames_prefix :
    (cs : List (List ℕ)) (s t : Stream) (fs : List (Failures × Frame))
    → length cs < 2 ^ 64
    → s.send_sequence ≡ 0
    → t.recv_sequence ≡ 0
    → t.written ≡ []
    → All (λ (x : Failures × Frame). IsFrom (data_frames cs s) x.1) fs
    → (n : ℕ) × ((write_all fs t).written ≡ take n cs)
write_all-data_frames_prefix cs s t fs l z r w a =
    write_all_pieces cs l fs t (w ∙ sym (ap (λ n. take n cs) r)) (pieces cs s fs l z a)
