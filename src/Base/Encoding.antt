-- ===== src/Base/Encoding.antt =====
-- Byte strings: little-endian words, hexadecimal and the UTF-8 check of Rust's standard library.
use Prim.Native.Nat.{ℕ, zero, suc, ◌+◌, ◌*◌, ◌/◌, ◌%◌, ◌<◌}
use mathlib.Core.Path.{◌≡◌, refl}
use mathlib.Core.Bool.{Bool, true, false, ◌&&◌}
use mathlib.Core.List.{[], ◌∷◌}
use mathlib.Core.Option.{Option, none, some}
use native.Mathlib.Omega.{arith}
use mutsuki_distributed_host.Base.Tests.{ltb, leb, ◌==◌, if◌then◌else◌}
use mutsuki_distributed_host.Base.Lists.{length, All}
use mutsuki_distributed_host.Base.Texts.{Bytes, Text}

-- `to_le_bytes` of an integer of n bytes, and `from_le_bytes`.
unfoldable pub le_bytes : ℕ → ℕ → Bytes
le_bytes zero x = []
le_bytes (suc n) x = (x % 256) ∷ le_bytes n (x / 256)

unfoldable pub from_le : Bytes → ℕ
from_le [] = 0
from_le (b ∷ bs) = b + 256 * from_le bs

-- The number of values of n bytes.
unfoldable pub range_of : ℕ → ℕ
range_of zero = 1
range_of (suc n) = 256 * range_of n

pub from_le-le_bytes : (n x : ℕ) → x < range_of n → from_le (le_bytes n x) ≡ x
unfolding from_le le_bytes range_of
from_le-le_bytes zero x h = omega arith
from_le-le_bytes (suc n) x h = omega (arith, from_le-le_bytes n (x / 256) (omega arith))

pub length-le_bytes : (n x : ℕ) → length (le_bytes n x) ≡ n
unfolding le_bytes
length-le_bytes zero x = refl
length-le_bytes (suc n) x = omega (arith, length-le_bytes n (x / 256))

-- The lower-case hexadecimal digit.
unfoldable pub hex_digit : ℕ → ℕ
hex_digit n = if ltb n 10 then 48 + n else if ltb n 16 then 87 + n else 0

unfoldable pub to_hex : Bytes → Text
unfolding hex_digit
to_hex [] = []
to_hex (b ∷ bs) = hex_digit (b / 16) ∷ hex_digit (b % 16) ∷ to_hex bs

-- After a leading byte: how many continuation bytes follow, and the range of the first.
unfoldable pub continuation : ℕ → Option (ℕ × ℕ × ℕ)
continuation b =
    if ltb b 0x80
    then some (0, 0x80, 0xbf)
    else if leb 0xc2 b && leb b 0xdf
    then some (1, 0x80, 0xbf)
    else if b == 0xe0
    then some (2, 0xa0, 0xbf)
    else if b == 0xed
    then some (2, 0x80, 0x9f)
    else if leb 0xe1 b && leb b 0xef
    then some (2, 0x80, 0xbf)
    else if b == 0xf0
    then some (3, 0x90, 0xbf)
    else if leb 0xf1 b && leb b 0xf3
    then some (3, 0x80, 0xbf)
    else if b == 0xf4
    then some (3, 0x80, 0x8f)
    else none

-- `needed` continuation bytes are still to come, the next one in a range.
unfoldable pub utf8_from : ℕ → ℕ → ℕ → Bytes → Bool
unfolding continuation
utf8_from needed low high [] = needed == 0
utf8_from zero low high (b ∷ bs) = elim (continuation b) [
  | none ↦ false
  | some (needed, low', high') ↦ utf8_from needed low' high' bs
]
utf8_from (suc needed) low high (b ∷ bs) = leb low b && leb b high && utf8_from needed 0x80 0xbf bs

-- `str::from_utf8`.
unfoldable pub from_utf8 : Bytes → Option Text
unfolding utf8_from
from_utf8 bytes = if utf8_from 0 0x80 0xbf bytes then some bytes else none

ascii-utf8 : (bytes : Bytes) → All (λ b. b < 128) bytes → utf8_from 0 0x80 0xbf bytes ≡ true
unfolding utf8_from
ascii-utf8 [] h = refl
ascii-utf8 (b ∷ bs) h = ground (arith, ascii-utf8 bs h.1)

hex-ascii : (bytes : Bytes) → All (λ b. b < 128) (to_hex bytes)
unfolding to_hex
hex-ascii [] = tt
hex-ascii (b ∷ bs) = (ground arith, (ground arith, hex-ascii bs))

pub from_utf8-hex : (bytes : Bytes) → from_utf8 (to_hex bytes) ≡ some (to_hex bytes)
unfolding from_utf8
from_utf8-hex bytes = ground (arith, ascii-utf8 (to_hex bytes) (hex-ascii bytes))

pub length-to_hex : (bytes : Bytes) → length (to_hex bytes) ≡ 2 * length bytes
unfolding to_hex
length-to_hex [] = omega arith
length-to_hex (b ∷ bs) = omega (arith, length-to_hex bs)
