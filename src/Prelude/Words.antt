-- ===== src/Prelude/Words.antt =====
-- Machine integers as native numbers: each operation that can wrap writes its modulus out.
-- `x >> k` is `x / 2 ^ k` and `x & (2 ^ k - 1)` is `x % 2 ^ k`.
use Prim.Native.Nat.{ℕ, ◌+◌, ◌-◌, ◌/◌, ◌%◌, ◌^◌}

-- `std::uint8_t` conversion.
abbrev pub u8 : ℕ → ℕ
u8 n = n % 256

-- `std::uint64_t` addition (clock readings, deadlines), and `std::size_t` subtraction.
abbrev pub add64 : ℕ → ℕ → ℕ
add64 a b = (a + b) % 2 ^ 64

abbrev pub sub64 : ℕ → ℕ → ℕ
sub64 a b = (a + 2 ^ 64 - b) % 2 ^ 64

-- `b & 0x0F` and `(b >> 4) & 0x0F`.
abbrev pub low_nibble : ℕ → ℕ
low_nibble b = b % 16

abbrev pub high_nibble : ℕ → ℕ
high_nibble b = b / 16 % 16
