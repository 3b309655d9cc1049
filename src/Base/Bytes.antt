-- ===== src/Base/Bytes.antt =====
-- `binary.BigEndian`: 64-bit words as eight bytes, most significant first.
pub mod Laws
use Prim.Native.Nat.{ℕ, zero, suc, ◌+◌, ◌*◌, ◌/◌, ◌%◌, ◌<◌}
use mathlib.Core.List.{List, [], ◌∷◌, ◌++◌}

abbrev pub IsByte : ℕ → Type 0
IsByte b = b < 256

-- The range of `uint64`.
abbrev pub IsU64 : ℕ → Type 0
IsU64 n = n < 18_446_744_073_709_551_616

-- The `k` low bytes of `n`.
pub be_bytes : ℕ → ℕ → List ℕ
be_bytes zero n = []
be_bytes (suc k) n = be_bytes k (n / 256) ++ (n % 256) ∷ []

pub be_value : ℕ → List ℕ → ℕ
be_value acc [] = acc
be_value acc (b ∷ bs) = be_value (acc * 256 + b) bs

-- `binary.BigEndian.AppendUint64(nil, n)`.
unfoldable pub put_u64 : ℕ → List ℕ
unfolding be_bytes
put_u64 n = be_bytes 8 n

-- `binary.BigEndian.Uint64(bs)` of eight bytes.
unfoldable pub get_u64 : List ℕ → ℕ
unfolding be_value
get_u64 bs = be_value 0 bs
