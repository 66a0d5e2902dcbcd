-- ===== src/Counter.antt =====
-- utils/utils.go: a counter as eight bytes, the highest first (binary.BigEndian).
use omashu.Base.{ℕ, ◌+◌, ◌*◌, ◌/◌, ◌%◌, ◌^◌, ◌<◌, ◌≡◌, ap, [], ◌∷◌, arith}
use omashu.Base.Bytes.{Bytes}
use omashu.Errors.{Result, ok, panic}

unfoldable pub uint64_to_bytes : ℕ → Bytes
uint64_to_bytes v =
    (v / 2 ^ 56 % 256)
    ∷ (v / 2 ^ 48 % 256)
    ∷ (v / 2 ^ 40 % 256)
    ∷ (v / 2 ^ 32 % 256)
    ∷ (v / 2 ^ 24 % 256)
    ∷ (v / 2 ^ 16 % 256)
    ∷ (v / 2 ^ 8 % 256)
    ∷ (v % 256)
    ∷ []

-- Reading fewer than eight bytes is a panic, and what stands behind the eighth is not read.
unfoldable pub bytes_to_uint64 : Bytes → Result ℕ
bytes_to_uint64 (a ∷ b ∷ c ∷ d ∷ e ∷ f ∷ g ∷ h ∷ rest) =
    ok (a * 2 ^ 56 + b * 2 ^ 48 + c * 2 ^ 40 + d * 2 ^ 32 + e * 2 ^ 24 + f * 2 ^ 16 + g * 2 ^ 8 + h)
bytes_to_uint64 _ = panic

-- Every 64-bit value is read back from its eight bytes.
pub bytes_to_uint64-uint64_to_bytes :
    (v : ℕ) → v < 2 ^ 64 → bytes_to_uint64 (uint64_to_bytes v) ≡ ok v
unfolding bytes_to_uint64 uint64_to_bytes
bytes_to_uint64-uint64_to_bytes v h = ap ok (omega arith)
