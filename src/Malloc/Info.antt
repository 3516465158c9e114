-- ===== src/Malloc/Info.antt =====
-- `AllocInfo` of src/malloc.h, a word that packs the size of a block, its type and its device, and
-- the size that `jitc_malloc` asks for.
use enoki_jit.Prelude.{
  ℕ, zero, suc, ◌+◌, ◌-◌, ◌*◌, ◌/◌, ◌%◌, ◌^◌, ◌<◌, ◌≡◌, refl, Bool, true, false, not, ◌||◌, ltb,
  arith, if◌then◌else◌, Option, none, some,
}
use enoki_jit.Types.{AllocType}
use enoki_jit.Malloc.Round.{round_pow2}

-- The value of the enumerator.
abbrev pub alloc_type_code : AllocType → ℕ
alloc_type_code AllocType.host = 0
alloc_type_code AllocType.host_async = 1
alloc_type_code AllocType.host_pinned = 2
alloc_type_code AllocType.device = 3

-- A word that is read as an enumerator.
abbrev pub alloc_type_of : ℕ → Option AllocType
alloc_type_of zero = some AllocType.host
alloc_type_of (suc zero) = some AllocType.host_async
alloc_type_of (suc (suc zero)) = some AllocType.host_pinned
alloc_type_of (suc (suc (suc zero))) = some AllocType.device
alloc_type_of _ = none

unfoldable pub alloc_info_encode : ℕ → AllocType → ℕ → ℕ
alloc_info_encode size type device =
    (size * 2 ^ 16 % 2 ^ 64 + alloc_type_code type * 2 ^ 8 + device) % 2 ^ 64

-- The size, the type (none for a number that is no enumerator) and the device.
unfoldable pub alloc_info_decode : ℕ → ℕ × Option AllocType × ℕ
alloc_info_decode value = (value / 2 ^ 16, alloc_type_of (value / 2 ^ 8 % 256), value % 256)

unfoldable pub is_host : AllocType → Bool
is_host AllocType.host = true
is_host AllocType.host_async = true
is_host _ = false

-- The next multiple of 64 bytes, or of a packet of doubles where vectors have 16 lanes or more,
-- then the next power of two; products and sums wrap.
unfoldable pub block_size : ℕ → AllocType → ℕ → ℕ
unfolding is_host
block_size vector_width type size =
    if not (is_host type) || ltb vector_width 16
    then round_pow2 ((size + 63) % 2 ^ 64 / 64 * 64)
    else (let packet = vector_width * 8 in
        round_pow2 ((size + packet - 1) % 2 ^ 64 / packet * packet))

abbrev word : ℕ → ℕ → ℕ → ℕ
word size code device = (size * 2 ^ 16 % 2 ^ 64 + code * 2 ^ 8 + device) % 2 ^ 64

fields :
    (size code device : ℕ)
    → size < 2 ^ 48
    → code < 256
    → device < 256
    → (word size code device / 2 ^ 16 ≡ size)
      × (word size code device / 2 ^ 8 % 256 ≡ code)
      × (word size code device % 256 ≡ device)
fields size code device a b c = (omega arith, omega arith, omega arith)

pub alloc_type_of-code : (type : AllocType) → alloc_type_of (alloc_type_code type) ≡ some type
alloc_type_of-code AllocType.host = refl
alloc_type_of-code AllocType.host_async = refl
alloc_type_of-code AllocType.host_pinned = refl
alloc_type_of-code AllocType.device = refl

alloc_type_code-lt : (type : AllocType) → alloc_type_code type < 256
alloc_type_code-lt AllocType.host = omega arith
alloc_type_code-lt AllocType.host_async = omega arith
alloc_type_code-lt AllocType.host_pinned = omega arith
alloc_type_code-lt AllocType.device = omega arith

-- Decoding gives back the size, the type and the device of a block, for sizes below 2 ^ 48 and
-- devices below 256.
pub alloc_info_decode-encode :
    (size : ℕ) (type : AllocType) (device : ℕ)
    → size < 2 ^ 48
    → device < 256
    → alloc_info_decode (alloc_info_encode size type device) ≡ (size, some type, device)
unfolding alloc_info_encode alloc_info_decode
alloc_info_decode-encode size type device h d =
    let (a, b, c) = fields size (alloc_type_code type) device h (alloc_type_code-lt type) d in
    rw (a, b, c, alloc_type_of-code type)
