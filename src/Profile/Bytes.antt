-- ===== src/Profile/Bytes.antt =====
-- What domain/profile/profile-image.ts uses of `Uint8Array` and `DataView`. A read that gives
-- `undefined`, or throws a RangeError, is `none`.
use lume_tenant_api.Base.{
  ℕ, zero, suc, ◌+◌, ◌*◌, ◌≤◌, ◌<◌, nat_beq, Bool, true, false, ◌&&◌, Option, none, some, List, [],
  ◌∷◌, length, ◌≡◌, refl, arith, if◌then◌else◌,
}

unfoldable pub byte : List ℕ → ℕ → Option ℕ
byte [] offset = none
byte (b ∷ bs) zero = some b
byte (b ∷ bs) (suc offset) = byte bs offset

abbrev pub is_byte : Option ℕ → ℕ → Bool
is_byte none value = false
is_byte (some b) value = nat_beq b value

-- The bytes from `offset` on are the given ones.
unfoldable pub reads : List ℕ → ℕ → List ℕ → Bool
reads bytes offset [] = true
reads bytes offset (code ∷ codes) =
    is_byte (byte bytes offset) code && reads bytes (offset + 1) codes

-- How many bytes 0xff the list starts with.
unfoldable pub fill_length : List ℕ → ℕ
fill_length [] = 0
fill_length (b ∷ bs) = let more = fill_length bs in if nat_beq b 255 then suc more else 0

unfoldable pub drop : ℕ → List ℕ → List ℕ
drop zero bytes = bytes
drop (suc n) [] = []
drop (suc n) (b ∷ bytes) = drop n bytes

abbrev pub join_bytes : Option ℕ → Option ℕ → Option ℕ
join_bytes (some high) (some low) = some (256 * high + low)
join_bytes (some high) none = none
join_bytes none low = none

abbrev pub join_words : Option ℕ → Option ℕ → Option ℕ
join_words (some high) (some low) = some (65536 * high + low)
join_words (some high) none = none
join_words none low = none

unfoldable pub get_uint16 : List ℕ → ℕ → Option ℕ
get_uint16 bytes offset = join_bytes (byte bytes offset) (byte bytes (offset + 1))

unfoldable pub get_uint16_little : List ℕ → ℕ → Option ℕ
get_uint16_little bytes offset = join_bytes (byte bytes (offset + 1)) (byte bytes offset)

unfoldable pub get_uint32 : List ℕ → ℕ → Option ℕ
get_uint32 bytes offset = join_words (get_uint16 bytes offset) (get_uint16 bytes (offset + 2))

unfoldable pub get_uint32_little : List ℕ → ℕ → Option ℕ
get_uint32_little bytes offset =
    join_words (get_uint16_little bytes (offset + 2)) (get_uint16_little bytes offset)

-- `bytes[offset] + (bytes[offset + 1] << 8) + (bytes[offset + 2] << 16)`.
unfoldable pub uint24_little : List ℕ → ℕ → Option ℕ
uint24_little bytes offset = join_words (byte bytes (offset + 2)) (get_uint16_little bytes offset)

-- A value was read.
abbrev pub IsRead : Option ℕ → Type 0
IsRead o = (v : ℕ) × (o ≡ some v)

pub byte-IsRead : (bytes : List ℕ) (offset : ℕ) → offset < length bytes → IsRead (byte bytes offset)
unfolding byte
byte-IsRead [] offset h = absurd (ground arith)
byte-IsRead (b ∷ bs) zero h = (b, refl)
byte-IsRead (b ∷ bs) (suc offset) h = byte-IsRead bs offset (ground arith)

module _ (a b : Option ℕ) where
  join_bytes-IsRead : IsRead a → IsRead b → IsRead (join_bytes a b)
  join_bytes-IsRead (x, p) (y, q) = (256 * x + y, rw (p, q) refl)

  join_words-IsRead : IsRead a → IsRead b → IsRead (join_words a b)
  join_words-IsRead (x, p) (y, q) = (65536 * x + y, rw (p, q) refl)

module _ (bytes : List ℕ) (offset : ℕ) where
  pub get_uint16-IsRead : offset + 2 ≤ length bytes → IsRead (get_uint16 bytes offset)
  unfolding get_uint16
  get_uint16-IsRead h =
      join_bytes-IsRead _ _ (byte-IsRead bytes offset (omega arith))
        (byte-IsRead bytes (offset + 1) (omega arith))

  pub get_uint16_little-IsRead : offset + 2 ≤ length bytes → IsRead (get_uint16_little bytes offset)
  unfolding get_uint16_little
  get_uint16_little-IsRead h =
      join_bytes-IsRead _ _ (byte-IsRead bytes (offset + 1) (omega arith))
        (byte-IsRead bytes offset (omega arith))

module _ (bytes : List ℕ) (offset : ℕ) where
  pub get_uint32-IsRead : offset + 4 ≤ length bytes → IsRead (get_uint32 bytes offset)
  unfolding get_uint32
  get_uint32-IsRead h =
      join_words-IsRead _ _ (get_uint16-IsRead bytes offset (omega arith))
        (get_uint16-IsRead bytes (offset + 2) (omega arith))

  pub get_uint32_little-IsRead : offset + 4 ≤ length bytes → IsRead (get_uint32_little bytes offset)
  unfolding get_uint32_little
  get_uint32_little-IsRead h =
      join_words-IsRead _ _ (get_uint16_little-IsRead bytes (offset + 2) (omega arith))
        (get_uint16_little-IsRead bytes offset (omega arith))

  pub uint24_little-IsRead : offset + 3 ≤ length bytes → IsRead (uint24_little bytes offset)
  unfolding uint24_little
  uint24_little-IsRead h =
      join_words-IsRead _ _ (byte-IsRead bytes (offset + 2) (omega arith))
        (get_uint16_little-IsRead bytes offset (omega arith))
