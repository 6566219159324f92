-- ===== src/Video/Frame/Layout/Supported.antt =====
-- The layout of the frames of every format.
use akvirtualcamera.Base.{
  ℕ, ◌≤◌, ◌≡◌, refl, Bool, true, ◌&&◌, List, [], ◌∷◌, arith, leb, ◌==◌, length, All, inl, inr,
  Bool-cases,
}
use akvirtualcamera.Video.Spec.{ColorPlane}
use akvirtualcamera.Video.Table.{VideoFmt, formats, find_format, by_pixel_format, format_specs}
use akvirtualcamera.Video.Format.{VideoFormat}
use akvirtualcamera.Video.Frame.{update_params, frame_size}
use akvirtualcamera.Video.Frame.Layout.{IsModest}
use akvirtualcamera.Video.Frame.Layout.Planes.{Stacked, update_params-Stacked}

-- At most 32 bits for a pixel in each plane.
abbrev narrow : List ColorPlane → Bool
narrow [] = true
narrow (p ∷ ps) = leb p.bits_size 32 && narrow ps

abbrev few_planes : List VideoFmt → Bool
few_planes [] = true
few_planes (r ∷ rs) = narrow r.planes && (leb (length r.planes) 4 && few_planes rs)

narrow-All : (ps : List ColorPlane) → narrow ps ≡ true → All (λ p. p.bits_size ≤ 32) ps
narrow-All [] h = tt
narrow-All (p ∷ ps) h = (ground (arith, h), narrow-All ps (ground (arith, h)))

table_fits : few_planes formats ≡ true
unfolding formats
table_fits = refl

find_format-few :
    (f : ℕ) (rs : List VideoFmt)
    → few_planes rs ≡ true
    → (narrow (find_format f rs).planes ≡ true) × (length (find_format f rs).planes ≤ 4)
unfolding find_format
find_format-few f [] h = (refl, omega arith)
find_format-few f (r ∷ rs) h = elim (Bool-cases (r.format == f)) [
  | inl e ↦ rw e (ground (arith, h), ground (arith, h))
  | inr e ↦ rw e (find_format-few f rs (ground (arith, h)))
]

-- For every format, supported or not, and less than 65536 × 65536 pixels, the planes of the frame
-- that is allocated follow one another without a gap or an overlap, from 0 to the size of the buffer,
-- each at a multiple of 32.
pub planes-Stacked :
    (v : VideoFormat)
    → IsModest v
    → Stacked 0 (update_params v (format_specs v.format).planes).0 (frame_size v)
unfolding frame_size format_specs by_pixel_format
planes-Stacked v h =
    let fits = find_format-few v.format formats table_fits in
    update_params-Stacked v (find_format v.format formats).planes h
      (narrow-All (find_format v.format formats).planes fits.0) fits.1
