-- ===== src/Base/Machine.antt =====
-- The machine integers, identifiers and instants of the program.
use Prim.Native.Nat.{ℕ, ◌+◌, ◌-◌, ◌*◌, ◌/◌, ◌%◌, ◌^◌}

-- A UUID is its 128-bit number.
abbrev pub Uuid : Type 0
Uuid = ℕ

-- `OffsetDateTime`: nanoseconds since 1970. No instant of the program lies before that.
abbrev pub Instant : Type 0
Instant = ℕ

-- `Duration::seconds`
abbrev pub seconds : ℕ → ℕ
seconds n = n * 1000000000

abbrev pub unix_timestamp : Instant → ℕ
unix_timestamp t = t / 1000000000

abbrev pub i32_mod : ℕ
i32_mod = 2 ^ 32

-- An `i32` is its bit pattern, below 2^32; addition and subtraction wrap round, as they do in a
-- release build.
abbrev pub i32_add : ℕ → ℕ → ℕ
i32_add a b = (a + b) % i32_mod

abbrev pub i32_sub : ℕ → ℕ → ℕ
i32_sub a b = (a + i32_mod - b) % i32_mod
