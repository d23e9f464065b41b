-- ===== src/Profile/Tests.antt =====
-- Inspections of concrete bytes.
use lume_tenant_api.Base.{ℕ, List, [], ◌∷◌, ◌≡◌, refl, arith}
use lume_tenant_api.Profile.Bytes.{byte, reads, fill_length, drop, get_uint16}
use lume_tenant_api.Profile.Image.{
  found, jpeg, png, inspect_jpeg, jpeg_round, jpeg_marker, jpeg_segment, run_rounds,
}
use lume_tenant_api.Profile.Inspect.{inspect_profile_image}
use lume_tenant_api.Profile.Answers.{IsAnswer, inspect_profile_image-IsAnswer}
use lume_tenant_api.Profile.RoundTrip.{png_file, inspect_profile_image-png_file}

-- A JPEG with an application segment, two fill bytes and a frame of 128 by 256.
abbrev small_jpeg : List ℕ
small_jpeg =
    255 ∷ 216 ∷ 255 ∷ 224 ∷ 0 ∷ 4 ∷ 0 ∷ 0 ∷ 255 ∷ 255 ∷ 255 ∷ 192 ∷ 0 ∷ 8 ∷ 8 ∷ 1 ∷ 0 ∷ 0 ∷ 128 ∷ 3
    ∷ []

small_jpeg_found :
    inspect_jpeg small_jpeg ≡ found (record { mime_type = jpeg; width = 128; height = 256 })
unfolding inspect_jpeg jpeg_round jpeg_marker jpeg_segment run_rounds byte reads fill_length drop
    get_uint16
small_jpeg_found = refl

inspect_profile_image-IsAnswer_example : IsAnswer (inspect_profile_image small_jpeg)
inspect_profile_image-IsAnswer_example = inspect_profile_image-IsAnswer small_jpeg

inspect_profile_image-png_file_example :
    inspect_profile_image (png_file 640 480 (8 ∷ 6 ∷ []))
    ≡ found (record { mime_type = png; width = 640; height = 480 })
inspect_profile_image-png_file_example =
    inspect_profile_image-png_file 640 480 (8 ∷ 6 ∷ []) (omega arith) (omega arith)
