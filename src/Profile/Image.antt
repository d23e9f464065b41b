-- ===== src/Profile/Image.antt =====
-- domain/profile/profile-image.ts: the result of an inspection, PNG and JPEG.
use lume_tenant_api.Base.{
  ℕ, zero, suc, ◌+◌, ltb, leb, not, ◌&&◌, ◌||◌, Option, none, some, List, [], ◌∷◌, length, any,
  if◌then◌else◌,
}
use lume_tenant_api.Profile.Bytes.{byte, is_byte, reads, fill_length, drop, get_uint16, get_uint32}

pub data ProfilePictureMimeType : Type 0 where
  jpeg png webp : ProfilePictureMimeType

pub record ProfileImageMetadata : Type 0 where
  pub mime_type : ProfilePictureMimeType
  pub width : ℕ
  pub height : ℕ

-- What an inspection comes to: an image, `null`, a read past the end of the bytes (a RangeError, or
-- a size that is no number), or a loop that did not end within its fuel.
pub data Inspection : Type 0 where
  found : ProfileImageMetadata → Inspection
  nothing out_of_range exhausted : Inspection

-- One round of a loop over an offset: it returns, or goes on with another offset.
pub data Round : Type 0 where
  stop : Inspection → Round
  next : ℕ → Round

unfoldable pub run_rounds : (ℕ → Round) → ℕ → ℕ → Inspection
run_rounds round zero offset = exhausted
run_rounds round (suc fuel) offset = elim (round offset) [
  | stop result ↦ result
  | next further ↦ run_rounds round fuel further
]

-- The image of two sizes that were read.
abbrev pub measured : ProfilePictureMimeType → Option ℕ → Option ℕ → Inspection
measured mime (some w) (some h) = found (record { mime_type = mime; width = w; height = h })
measured mime (some w) none = out_of_range
measured mime none h = out_of_range

unfoldable pub inspect_png : List ℕ → Inspection
inspect_png bytes =
    if ltb (length bytes) 24
      || not (reads bytes 0 (137 ∷ 80 ∷ 78 ∷ 71 ∷ 13 ∷ 10 ∷ 26 ∷ 10 ∷ []))
      || not (reads bytes 8 (0 ∷ 0 ∷ 0 ∷ 13 ∷ []))
      || not (reads bytes 12 (73 ∷ 72 ∷ 68 ∷ 82 ∷ []))
    then nothing
    else measured png (get_uint32 bytes 16) (get_uint32 bytes 20)

abbrev pub jpeg_start_of_frame_markers : List ℕ
jpeg_start_of_frame_markers =
    192 ∷ 193 ∷ 194 ∷ 195 ∷ 197 ∷ 198 ∷ 199 ∷ 201 ∷ 202 ∷ 203 ∷ 205 ∷ 206 ∷ 207 ∷ []

-- The segment after a marker, once its length is read.
unfoldable pub jpeg_segment : List ℕ → Option ℕ → ℕ → Option ℕ → Round
jpeg_segment bytes marker offset none = stop out_of_range
jpeg_segment bytes marker offset (some segment_length) =
    if ltb segment_length 2 || ltb (length bytes) (offset + segment_length)
    then stop nothing
    else if any (is_byte marker) jpeg_start_of_frame_markers && leb 7 segment_length
    then stop (measured jpeg (get_uint16 bytes (offset + 5)) (get_uint16 bytes (offset + 3)))
    else next (offset + segment_length)

-- The marker at `at`, past the bytes 0xff.
unfoldable pub jpeg_marker : List ℕ → ℕ → Round
unfolding jpeg_segment
jpeg_marker bytes at =
    let marker = byte bytes at in
    let offset = at + 1 in
    if is_byte marker 216 || is_byte marker 217
    then next offset
    else if is_byte marker 218
    then stop nothing
    else if ltb (length bytes) (offset + 2)
    then stop nothing
    else jpeg_segment bytes marker offset (get_uint16 bytes offset)

unfoldable pub jpeg_round : List ℕ → ℕ → Round
unfolding jpeg_marker
jpeg_round bytes offset =
    if not (ltb (offset + 3) (length bytes))
    then stop nothing
    else if not (is_byte (byte bytes offset) 255)
    then next (offset + 1)
    else jpeg_marker bytes (offset + fill_length (drop offset bytes))

unfoldable pub inspect_jpeg : List ℕ → Inspection
unfolding jpeg_round run_rounds
inspect_jpeg bytes =
    if ltb (length bytes) 10 || not (is_byte (byte bytes 0) 255) || not (is_byte (byte bytes 1) 216)
    then nothing
    else run_rounds (jpeg_round bytes) (suc (length bytes)) 2
