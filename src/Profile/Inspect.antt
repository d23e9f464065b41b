-- ===== src/Profile/Inspect.antt =====
-- domain/profile/profile-image.ts: `inspectProfileImage`.
use lume_tenant_api.Base.{ℕ, List}
use lume_tenant_api.Profile.Image.{
  Inspection, found, nothing, out_of_range, exhausted, inspect_png, inspect_jpeg,
}
use lume_tenant_api.Profile.Webp.{inspect_webp}

-- `first ?? second`.
abbrev pub or_else : Inspection → Inspection → Inspection
or_else nothing second = second
or_else (found image) second = found image
or_else out_of_range second = out_of_range
or_else exhausted second = exhausted

unfoldable pub inspect_profile_image : List ℕ → Inspection
unfolding inspect_png inspect_jpeg inspect_webp
inspect_profile_image bytes =
    or_else (or_else (inspect_png bytes) (inspect_jpeg bytes)) (inspect_webp bytes)
