-- ===== src/Profile/Answers.antt =====
-- Every inspection of bytes comes to an answer.
use lume_tenant_api.Base.{
  ℕ, zero, suc, ◌+◌, ◌%◌, ◌/◌, ◌≤◌, ◌<◌, true, false, ◌&&◌, ltb, Option, none, some, List, [], ◌∷◌,
  length, ◌≡◌, arith, inl, inr, Bool-cases, leb,
}
use lume_tenant_api.Profile.Bytes.{
  byte, is_byte, reads, fill_length, drop, IsRead, get_uint16-IsRead, get_uint32-IsRead,
  get_uint16_little-IsRead, get_uint32_little-IsRead, uint24_little-IsRead, get_uint16,
  uint24_little, get_uint16_little, get_uint32_little,
}
use lume_tenant_api.Profile.Image.{
  ProfilePictureMimeType, Inspection, found, nothing, out_of_range, exhausted, Round, stop, next,
  run_rounds, measured, inspect_png, jpeg_segment, jpeg_marker, jpeg_round, inspect_jpeg,
}
use lume_tenant_api.Profile.Webp.{webp_chunk, webp_round, inspect_webp, map_size}
use lume_tenant_api.Profile.Inspect.{or_else, inspect_profile_image}

-- Metadata or `null`: no read past the end, and every loop ended.
abbrev pub IsAnswer : Inspection → Type 0
IsAnswer (found image) = Unit {0}
IsAnswer nothing = Unit {0}
IsAnswer out_of_range = ⊥
IsAnswer exhausted = ⊥

-- A round that goes on was before the end, and moves on.
abbrev IsRound : ℕ → ℕ → Round → Type 0
IsRound size offset (stop result) = IsAnswer result
IsRound size offset (next further) = (offset < size) × (offset < further)

measured-IsAnswer :
    (mime : ProfilePictureMimeType) (w h : Option ℕ)
    → IsRead w
    → IsRead h
    → IsAnswer (measured mime w h)
measured-IsAnswer mime (some w) (some h) (_, _) (_, _) = tt
measured-IsAnswer mime none h (_, p) _ = ground arith
measured-IsAnswer mime (some w) none _ (_, p) = ground arith

module _ (size : ℕ) (round : ℕ → Round) (sound : (o : ℕ) → IsRound size o (round o)) where
  elim-IsAnswer :
      (fuel offset : ℕ) (r : Round)
      → IsRound size offset r
      → ((further : ℕ)
          → offset < size
          → offset < further
          → IsAnswer (run_rounds round fuel further))
      → IsAnswer (elim r [ stop result ↦ result | next further ↦ run_rounds round fuel further ])
  elim-IsAnswer fuel offset (stop result) s go = s
  elim-IsAnswer fuel offset (next further) s go = go further s.0 s.1

  run_rounds-IsAnswer :
      (fuel offset : ℕ) → size ≤ fuel + offset → IsAnswer (run_rounds round (suc fuel) offset)
  unfolding run_rounds
  run_rounds-IsAnswer zero offset enough =
      elim-IsAnswer zero offset (round offset) (sound offset)
        (λ further inside on. absurd (omega arith))
  run_rounds-IsAnswer (suc fuel) offset enough =
      elim-IsAnswer (suc fuel) offset (round offset) (sound offset)
        (λ further inside on. run_rounds-IsAnswer fuel further (omega arith))

module _ (bytes : List ℕ) where
  jpeg_segment-IsRound :
      (marker : Option ℕ) (at offset : ℕ) (size : Option ℕ)
      → at < length bytes
      → at < offset
      → IsRead size
      → IsRound (length bytes) at (jpeg_segment bytes marker offset size)
  unfolding jpeg_segment
  jpeg_segment-IsRound marker at offset none inside on (_, p) = ground arith
  jpeg_segment-IsRound marker at offset (some n) inside on r =
      ground (arith, get_uint16-IsRead bytes (offset + 5), get_uint16-IsRead bytes (offset + 3))

  jpeg_marker-IsRound :
      (offset at : ℕ)
      → offset < length bytes
      → offset ≤ at
      → IsRound (length bytes) offset (jpeg_marker bytes at)
  unfolding jpeg_marker
  jpeg_marker-IsRound offset at inside on = ground (
    arith,
    get_uint16-IsRead bytes (at + 1),
    jpeg_segment-IsRound (byte bytes at) offset (at + 1) (get_uint16 bytes (at + 1)),
  )

  jpeg_round-IsRound : (offset : ℕ) → IsRound (length bytes) offset (jpeg_round bytes offset)
  unfolding jpeg_round
  jpeg_round-IsRound offset =
      ground (arith, jpeg_marker-IsRound offset (offset + fill_length (drop offset bytes)))

  inspect_jpeg-IsAnswer : IsAnswer (inspect_jpeg bytes)
  unfolding inspect_jpeg
  inspect_jpeg-IsAnswer = ground (
    arith,
    run_rounds-IsAnswer (length bytes) (jpeg_round bytes) jpeg_round-IsRound (length bytes) 2,
  )

  inspect_png-IsAnswer : IsAnswer (inspect_png bytes)
  unfolding inspect_png
  inspect_png-IsAnswer = ground (arith, get_uint32-IsRead bytes 16, get_uint32-IsRead bytes 20)

sizes-IsAnswer :
    (f g : ℕ → ℕ) (w h : Option ℕ)
    → IsRead w
    → IsRead h
    → IsAnswer (measured ProfilePictureMimeType.webp (map_size f w) (map_size g h))
sizes-IsAnswer f g (some w) (some h) p q = tt
sizes-IsAnswer f g none h (_, p) q = ground arith
sizes-IsAnswer f g (some w) none p (_, q) = ground arith

-- What the length of a chunk, once tested, says of the bytes.
fits_chunk :
    (bytes : List ℕ) (start n least : ℕ)
    → ltb (length bytes) (start + n) ≡ false
    → leb least n ≡ true
    → start + least ≤ length bytes
fits_chunk bytes start n least fits test = ground arith

module _ (bytes : List ℕ) where
  -- The chunk of each kind, by the test that lets it in.
  webp_chunk-IsRound :
      (offset : ℕ) (size : Option ℕ)
      → offset < length bytes
      → IsRead size
      → IsRound (length bytes) offset (webp_chunk bytes offset size)
  unfolding webp_chunk
  webp_chunk-IsRound offset none inside (_, p) = ground arith
  webp_chunk-IsRound offset (some n) inside r =
      let start = offset + 8 in
      let is_extended = reads bytes offset (86 ∷ 80 ∷ 56 ∷ 88 ∷ []) in
      let is_lossy = reads bytes offset (86 ∷ 80 ∷ 56 ∷ 32 ∷ []) in
      let is_lossless = reads bytes offset (86 ∷ 80 ∷ 56 ∷ 76 ∷ []) in
      let starts_frame = is_byte (byte bytes (start + 3)) 157 in
      let goes_on = is_byte (byte bytes (start + 4)) 1 in
      let ends_code = is_byte (byte bytes (start + 5)) 42 in
      let is_signed = is_byte (byte bytes start) 47 in
      elim (Bool-cases (ltb (length bytes) (start + n))) [
        | inl past ↦ rw past tt
        | inr fits ↦ rw fits (elim (Bool-cases (is_extended && leb 10 n)) [
          | inl extended ↦ rw extended (
              let long = fits_chunk bytes start n 10 fits (ground arith) in
              sizes-IsAnswer (λ s. 1 + s) (λ s. 1 + s) (uint24_little bytes (start + 4))
                (uint24_little bytes (start + 7))
                (uint24_little-IsRead bytes (start + 4) (omega arith))
                (uint24_little-IsRead bytes (start + 7) (omega arith)))
          | inr other ↦
              rw other
                (elim (Bool-cases (is_lossy && leb 10 n && starts_frame && goes_on && ends_code)) [
                  | inl lossy ↦ rw lossy (
                      let long = fits_chunk bytes start n 10 fits (ground arith) in
                      sizes-IsAnswer (λ s. s % 16384) (λ s. s % 16384)
                        (get_uint16_little bytes (start + 6)) (get_uint16_little bytes (start + 8))
                        (get_uint16_little-IsRead bytes (start + 6) (omega arith))
                        (get_uint16_little-IsRead bytes (start + 8) (omega arith)))
                  | inr other ↦ rw other (elim (Bool-cases (is_lossless && leb 5 n && is_signed)) [
                    | inl lossless ↦ rw lossless (
                        let long = fits_chunk bytes start n 5 fits (ground arith) in
                        let bits = get_uint32_little-IsRead bytes (start + 1) (omega arith) in
                        sizes-IsAnswer (λ bits. bits % 16384 + 1)
                          (λ bits. (bits / 16384) % 16384 + 1) (get_uint32_little bytes (start + 1))
                          (get_uint32_little bytes (start + 1)) bits bits)
                    | inr other ↦ rw other (inside, omega arith)
                  ])
                ])
        ])
      ]

  webp_round-IsRound : (offset : ℕ) → IsRound (length bytes) offset (webp_round bytes offset)
  unfolding webp_round
  webp_round-IsRound offset = elim (Bool-cases (leb (offset + 8) (length bytes))) [
    | inl fits ↦ rw fits (
        webp_chunk-IsRound offset (get_uint32_little bytes (offset + 4)) (ground arith)
          (get_uint32_little-IsRead bytes (offset + 4) (ground arith)))
    | inr past ↦ rw past tt
  ]

  inspect_webp-IsAnswer : IsAnswer (inspect_webp bytes)
  unfolding inspect_webp
  inspect_webp-IsAnswer = ground (
    arith,
    run_rounds-IsAnswer (length bytes) (webp_round bytes) webp_round-IsRound (length bytes) 12,
  )

or_else-IsAnswer :
    (first second : Inspection) → IsAnswer first → IsAnswer second → IsAnswer (or_else first second)
or_else-IsAnswer nothing second a b = b
or_else-IsAnswer (found image) second a b = tt
or_else-IsAnswer out_of_range second a b = elim a [ ]
or_else-IsAnswer exhausted second a b = elim a [ ]

-- The inspection of any sequence of bytes ends with metadata or `null`: no read passes the end of
-- the bytes, so none throws, and both loops end within one round more than there are bytes.
pub inspect_profile_image-IsAnswer : (bytes : List ℕ) → IsAnswer (inspect_profile_image bytes)
unfolding inspect_profile_image
inspect_profile_image-IsAnswer bytes =
    or_else-IsAnswer (or_else (inspect_png bytes) (inspect_jpeg bytes)) (inspect_webp bytes)
      (or_else-IsAnswer (inspect_png bytes) (inspect_jpeg bytes) (inspect_png-IsAnswer bytes)
        (inspect_jpeg-IsAnswer bytes))
      (inspect_webp-IsAnswer bytes)
