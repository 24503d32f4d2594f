-- ===== src/Missions/Export/Bytes.antt =====
-- Little-endian integers of a Node buffer.
use pawaacdrone_fleet_operat.Common.{
  ℕ, zero, suc, ◌+◌, ◌-◌, ◌*◌, ◌/◌, ◌%◌, ◌<◌, ◌≡◌, Bool, true, not, ◌||◌, List, [], ◌∷◌,
  if◌then◌else◌, ltb, Number, pos, negsuc, ratio, int, num_lt, arith,
}

unfoldable pub le_bytes : ℕ → ℕ → List ℕ
le_bytes zero v = []
le_bytes (suc k) v = v % 256 ∷ le_bytes k (v / 256)

unfoldable pub le_value : List ℕ → ℕ
le_value [] = 0
le_value (b ∷ bs) = b + 256 * le_value bs

-- Integers of k bytes are below this; a write of another one throws a `RangeError`.
abbrev pub uint_fits : ℕ → ℕ → Bool
uint_fits limit v = ltb v limit

-- `writeInt32LE` throws outside this range; `NaN` passes.
unfoldable pub int32_fits : Number → Bool
int32_fits x = not (num_lt (int 2147483647) x || num_lt x (ratio (negsuc 2147483647) 0))

-- The bits that `writeInt32LE` writes: the integral part, in two's complement.
unfoldable pub write_int32 : Number → ℕ
write_int32 (ratio (pos a) b) = a / suc b
write_int32 (ratio (negsuc a) b) = (4294967296 - suc a / suc b) % 4294967296
write_int32 other = 0

unfoldable pub read_int32 : ℕ → Number
read_int32 v = if ltb v 2147483648 then int v else ratio (negsuc (4294967295 - v)) 0

pub le_value-le_bytes_2 : (v : ℕ) → v < 65536 → le_value (le_bytes 2 v) ≡ v
unfolding le_value le_bytes
le_value-le_bytes_2 v h = omega arith

pub le_value-le_bytes_4 : (v : ℕ) → v < 4294967296 → le_value (le_bytes 4 v) ≡ v
unfolding le_value le_bytes
le_value-le_bytes_4 v h = omega arith

-- A whole number within 32 bits.
abbrev pub IsInt32 : Number → Type 0
IsInt32 (ratio (pos a) zero) = a < 2147483648
IsInt32 (ratio (negsuc a) zero) = a < 2147483648
IsInt32 _ = ⊥

pub write_int32_bound : (x : Number) → IsInt32 x → write_int32 x < 4294967296
unfolding write_int32
write_int32_bound (ratio (pos a) zero) h = omega arith
write_int32_bound (ratio (negsuc a) zero) h = omega arith
write_int32_bound _ h = absurd h

pub read_int32-write_int32 : (x : Number) → IsInt32 x → read_int32 (write_int32 x) ≡ x
unfolding write_int32 read_int32
read_int32-write_int32 (ratio (pos a) zero) h = ground arith
read_int32-write_int32 (ratio (negsuc a) zero) h = ground arith
read_int32-write_int32 _ h = absurd h

pub IsInt32-fits : (x : Number) → IsInt32 x → int32_fits x ≡ true
unfolding int32_fits num_lt
IsInt32-fits (ratio (pos a) zero) h = ground arith
IsInt32-fits (ratio (negsuc a) zero) h = ground arith
IsInt32-fits _ h = absurd h
