-- ===== src/Prelude/Words.antt =====
-- Machine words. The kernel is built with `cargo build --release` (build.sh), where arithmetic wraps
-- and a shift takes its amount modulo the width.
use Prim.Native.Nat.{ℕ, ◌+◌, ◌-◌, ◌*◌, ◌/◌, ◌%◌, ◌^◌}

abbrev pub u8 : ℕ → ℕ
u8 n = n % 2 ^ 8

abbrev pub u16 : ℕ → ℕ
u16 n = n % 2 ^ 16

abbrev pub u32 : ℕ → ℕ
u32 n = n % 2 ^ 32

abbrev pub u64 : ℕ → ℕ
u64 n = n % 2 ^ 64

abbrev pub u128 : ℕ → ℕ
u128 n = n % 2 ^ 128

-- `usize` on x86_64.
abbrev pub usize : ℕ → ℕ
usize n = n % 2 ^ 64

abbrev pub sub_u16 : ℕ → ℕ → ℕ
sub_u16 a b = (a + 2 ^ 16 - b) % 2 ^ 16

abbrev pub sub_u32 : ℕ → ℕ → ℕ
sub_u32 a b = (a + 2 ^ 32 - b) % 2 ^ 32

abbrev pub sub_u64 : ℕ → ℕ → ℕ
sub_u64 a b = (a + 2 ^ 64 - b) % 2 ^ 64

abbrev pub sub_usize : ℕ → ℕ → ℕ
sub_usize a b = (a + 2 ^ 64 - b) % 2 ^ 64

-- `x << k` on u32 and on u128.
abbrev pub shl_u32 : ℕ → ℕ → ℕ
shl_u32 x k = (x * 2 ^ (k % 32)) % 2 ^ 32

abbrev pub shl_u128 : ℕ → ℕ → ℕ
shl_u128 x k = (x * 2 ^ (k % 128)) % 2 ^ 128

-- `x << k` for a cast value that is too small to lose bits, and `x >> k`.
infixl 72 ◌<<<◌ ◌>>>◌
abbrev pub ◌<<<◌ : ℕ → ℕ → ℕ
x <<< k = x * 2 ^ k

abbrev pub ◌>>>◌ : ℕ → ℕ → ℕ
x >>> k = x / 2 ^ k
