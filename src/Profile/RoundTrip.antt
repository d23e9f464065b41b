-- ===== src/Profile/RoundTrip.antt =====
-- The size that a PNG states is the size that the inspection finds.
use lume_tenant_api.Base.{
  ℕ, ◌<◌, ◌/◌, ◌%◌, ◌^◌, ◌+◌, ◌*◌, List, [], ◌∷◌, ◌++◌, length, ◌≡◌, refl, arith, ltb, false,
}
use lume_tenant_api.Profile.Bytes.{byte, reads, get_uint16, get_uint32}
use lume_tenant_api.Profile.Image.{found, png, inspect_png}
use lume_tenant_api.Profile.Inspect.{inspect_profile_image}

-- Four bytes, the most significant first.
abbrev pub encode_uint32 : ℕ → List ℕ
encode_uint32 n = (n / 16777216) % 256 ∷ (n / 65536) % 256 ∷ (n / 256) % 256 ∷ n % 256 ∷ []

-- The start of a PNG: the signature, the IHDR chunk's length and name, and the two sizes.
abbrev pub png_file : ℕ → ℕ → List ℕ → List ℕ
png_file width height rest =
    (137 ∷ 80 ∷ 78 ∷ 71 ∷ 13 ∷ 10 ∷ 26 ∷ 10 ∷ [])
    ++ (0 ∷ 0 ∷ 0 ∷ 13 ∷ 73 ∷ 72 ∷ 68 ∷ 82 ∷ [])
    ++ encode_uint32 width
    ++ encode_uint32 height
    ++ rest

join_encoded :
    (n : ℕ)
    → n < 2 ^ 32
    → 65536 * (256 * ((n / 16777216) % 256) + (n / 65536) % 256)
        + (256 * ((n / 256) % 256) + n % 256)
      ≡ n
join_encoded n h = omega arith

png_file-long :
    (width height : ℕ) (rest : List ℕ) → ltb (length (png_file width height rest)) 24 ≡ false
png_file-long width height rest = ground arith

-- A PNG that states a width and a height, followed by any bytes, is found as a PNG of that size.
pub inspect_profile_image-png_file :
    (width height : ℕ) (rest : List ℕ)
    → width < 2 ^ 32
    → height < 2 ^ 32
    → inspect_profile_image (png_file width height rest)
      ≡ found (record { mime_type = png; width = width; height = height })
unfolding inspect_profile_image inspect_png reads byte get_uint32 get_uint16
inspect_profile_image-png_file width height rest w h =
    rw (join_encoded width w, join_encoded height h, png_file-long width height rest) refl
