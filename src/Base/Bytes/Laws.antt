-- ===== src/Base/Bytes/Laws.antt =====
-- Reading a word back from its bytes, and the bytes back from the word that they spell.
use Prim.Native.Nat.{ℕ, zero, suc, ◌+◌, ◌*◌, ◌/◌, ◌%◌, ◌^◌, ◌<◌}
use mathlib.Core.Path.{◌≡◌, refl, ap, ◌∙◌}
use mathlib.Core.List.{List, [], ◌∷◌, ◌++◌}
use native.Mathlib.Nat.{pow-suc}
use native.Mathlib.Omega.{arith}
use vk_turn_proxy_go.Base.Lists.{length, All, All-append, length-append}
use vk_turn_proxy_go.Base.Bytes.{IsByte, IsU64, be_bytes, be_value, put_u64, get_u64}

length-be_bytes : (k n : ℕ) → length (be_bytes k n) ≡ k
unfolding be_bytes
length-be_bytes zero n = refl
length-be_bytes (suc k) n =
    omega
      (arith, length-append (be_bytes k (n / 256)) ((n % 256) ∷ []), length-be_bytes k (n / 256))

All-be_bytes : (k n : ℕ) → All IsByte (be_bytes k n)
unfolding be_bytes
All-be_bytes zero n = tt
All-be_bytes (suc k) n = All-append IsByte _ _ (All-be_bytes k (n / 256)) (omega arith, tt)

be_value-append :
    (acc : ℕ) (xs ys : List ℕ) → be_value acc (xs ++ ys) ≡ be_value (be_value acc xs) ys
unfolding be_value
be_value-append acc [] ys = refl
be_value-append acc (x ∷ xs) ys = be_value-append (acc * 256 + x) xs ys

div_bound : (k n : ℕ) → n < 256 ^ suc k → n / 256 < 256 ^ k
div_bound k n h = omega (arith, pow-suc 256 k)

be_value-be_bytes : (k n : ℕ) → n < 256 ^ k → be_value 0 (be_bytes k n) ≡ n
unfolding be_bytes be_value
be_value-be_bytes zero n h = omega arith
be_value-be_bytes (suc k) n h =
    be_value-append 0 (be_bytes k (n / 256)) ((n % 256) ∷ [])
    ∙ omega (arith, be_value-be_bytes k (n / 256) (div_bound k n h))

-- A list that is not empty, by its last item.
last_of :
    (k : ℕ) (xs : List ℕ)
    → length xs ≡ suc k
    → (ys : List ℕ) × (b : ℕ) × (xs ≡ ys ++ b ∷ []) × (length ys ≡ k)
last_of k [] h = absurd (omega arith)
last_of zero (x ∷ []) h = ([], x, refl, refl)
last_of zero (x ∷ y ∷ xs) h = absurd (omega arith)
last_of (suc k) (x ∷ xs) h =
    let (ys, b, e, l) = last_of k xs (omega arith) in (x ∷ ys, b, ap (λ zs. x ∷ zs) e, ap suc l)

All-unsnoc : (ys : List ℕ) (b : ℕ) → All IsByte (ys ++ b ∷ []) → All IsByte ys × IsByte b
All-unsnoc [] b h = (tt, h.0)
All-unsnoc (y ∷ ys) b h = let (hs, hb) = All-unsnoc ys b h.1 in ((h.0, hs), hb)

be_bytes_snoc : (k m b : ℕ) → IsByte b → be_bytes (suc k) (m * 256 + b) ≡ be_bytes k m ++ b ∷ []
unfolding be_bytes
be_bytes_snoc k m b h =
    let q : (m * 256 + b) / 256 ≡ m = omega arith in
    let r : (m * 256 + b) % 256 ≡ b = omega arith in rw (q, r)

be_bytes-be_value_snoc :
    (k : ℕ) (ys : List ℕ) (b : ℕ)
    → IsByte b
    → be_bytes k (be_value 0 ys) ≡ ys
    → be_bytes (suc k) (be_value 0 (ys ++ b ∷ [])) ≡ ys ++ b ∷ []
unfolding be_value
be_bytes-be_value_snoc k ys b h ih =
    ap (be_bytes (suc k)) (be_value-append 0 ys (b ∷ []))
    ∙ be_bytes_snoc k (be_value 0 ys) b h
    ∙ ap (λ zs. zs ++ b ∷ []) ih

be_bytes-be_value :
    (k : ℕ) (xs : List ℕ) → length xs ≡ k → All IsByte xs → be_bytes k (be_value 0 xs) ≡ xs
unfolding be_bytes be_value
be_bytes-be_value zero [] h a = refl
be_bytes-be_value zero (x ∷ xs) h a = absurd (omega arith)
be_bytes-be_value (suc k) xs h a =
    let (ys, b, e, l) = last_of k xs h in
    let parts = All-unsnoc ys b (rw e at a) in
    rw e (be_bytes-be_value_snoc k ys b parts.1 (be_bytes-be_value k ys l parts.0))

be_value_bound :
    (acc : ℕ) (xs : List ℕ) (m : ℕ)
    → acc < m
    → All IsByte xs
    → be_value acc xs < m * 256 ^ length xs
unfolding be_value
be_value_bound acc [] m h a = omega arith
be_value_bound acc (x ∷ xs) m h a =
    rw (pow-suc 256 (length xs))
      (omega (arith, be_value_bound (acc * 256 + x) xs (m * 256) (omega arith) a.1))

pub length-put_u64 : (n : ℕ) → length (put_u64 n) ≡ 8
unfolding put_u64
length-put_u64 n = length-be_bytes 8 n

pub All-put_u64 : (n : ℕ) → All IsByte (put_u64 n)
unfolding put_u64
All-put_u64 n = All-be_bytes 8 n

pub get_u64-put_u64 : (n : ℕ) → IsU64 n → get_u64 (put_u64 n) ≡ n
unfolding put_u64 get_u64
get_u64-put_u64 n h = be_value-be_bytes 8 n h

pub put_u64-get_u64 : (xs : List ℕ) → length xs ≡ 8 → All IsByte xs → put_u64 (get_u64 xs) ≡ xs
unfolding put_u64 get_u64
put_u64-get_u64 xs h a = be_bytes-be_value 8 xs h a

pub get_u64-IsU64 : (xs : List ℕ) → length xs ≡ 8 → All IsByte xs → IsU64 (get_u64 xs)
unfolding get_u64
get_u64-IsU64 xs h a = let b = be_value_bound 0 xs 1 (omega arith) a in rw h at b
