-- ===== src/Profile/Webp.antt =====
-- domain/profile/profile-image.ts: WebP. A shift to the right by 14 that is masked to 14 bits is a
-- quotient and a remainder, for the sign of the shifted number lies above the mask.
use lume_tenant_api.Base.{
  ℕ, suc, ◌+◌, ◌/◌, ◌%◌, ltb, leb, not, ◌&&◌, ◌||◌, Option, none, some, List, [], ◌∷◌, length,
  if◌then◌else◌,
}
use lume_tenant_api.Profile.Bytes.{
  byte, is_byte, reads, get_uint16_little, get_uint32_little, uint24_little,
}
use lume_tenant_api.Profile.Image.{
  Inspection, nothing, out_of_range, Round, stop, next, run_rounds, measured, webp,
}

abbrev pub map_size : (ℕ → ℕ) → Option ℕ → Option ℕ
map_size f none = none
map_size f (some size) = some (f size)

-- A chunk of known length.
unfoldable pub webp_chunk : List ℕ → ℕ → Option ℕ → Round
webp_chunk bytes offset none = stop out_of_range
webp_chunk bytes offset (some chunk_length) =
    let data_offset = offset + 8 in
    if ltb (length bytes) (data_offset + chunk_length)
    then stop nothing
    else if reads bytes offset (86 ∷ 80 ∷ 56 ∷ 88 ∷ []) && leb 10 chunk_length
    then stop (
        measured webp (map_size (λ s. 1 + s) (uint24_little bytes (data_offset + 4)))
          (map_size (λ s. 1 + s) (uint24_little bytes (data_offset + 7))))
    else if reads bytes offset (86 ∷ 80 ∷ 56 ∷ 32 ∷ [])
        && leb 10 chunk_length
        && is_byte (byte bytes (data_offset + 3)) 157
        && is_byte (byte bytes (data_offset + 4)) 1
        && is_byte (byte bytes (data_offset + 5)) 42
    then stop (
        measured webp (map_size (λ s. s % 16384) (get_uint16_little bytes (data_offset + 6)))
          (map_size (λ s. s % 16384) (get_uint16_little bytes (data_offset + 8))))
    else if reads bytes offset (86 ∷ 80 ∷ 56 ∷ 76 ∷ [])
        && leb 5 chunk_length
        && is_byte (byte bytes data_offset) 47
    then stop (
        measured webp
          (map_size (λ bits. bits % 16384 + 1) (get_uint32_little bytes (data_offset + 1)))
          (map_size (λ bits. (bits / 16384) % 16384 + 1)
            (get_uint32_little bytes (data_offset + 1))))
    else next (data_offset + chunk_length + chunk_length % 2)

unfoldable pub webp_round : List ℕ → ℕ → Round
unfolding webp_chunk
webp_round bytes offset =
    if not (leb (offset + 8) (length bytes))
    then stop nothing
    else webp_chunk bytes offset (get_uint32_little bytes (offset + 4))

unfoldable pub inspect_webp : List ℕ → Inspection
unfolding webp_round run_rounds
inspect_webp bytes =
    if ltb (length bytes) 30
      || not (reads bytes 0 (82 ∷ 73 ∷ 70 ∷ 70 ∷ []))
      || not (reads bytes 8 (87 ∷ 69 ∷ 66 ∷ 80 ∷ []))
    then nothing
    else run_rounds (webp_round bytes) (suc (length bytes)) 12
