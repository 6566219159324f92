-- ===== src/Video/Frame/Layout/Planes.antt =====
-- The planes of a frame fill its buffer, one behind the other.
use akvirtualcamera.Base.{
  ℕ, ◌+◌, ◌*◌, ◌%◌, ◌^◌, ◌≤◌, ◌<◌, ◌≡◌, refl, List, [], ◌∷◌, arith, length, All,
}
use akvirtualcamera.Number.Algorithm.{wrap64, align_up, align_up_32_bounds}
use akvirtualcamera.Video.Spec.{ColorPlane}
use akvirtualcamera.Video.Format.{VideoFormat, plane_size}
use akvirtualcamera.Video.Frame.{PlaneParams, params_from, update_params}
use akvirtualcamera.Video.Frame.Layout.{IsModest, plane_size-bounds, plane_size-le}

-- From `start` on each plane begins where the one before it ends, at a multiple of 32, and the last
-- one ends at `stop`.
abbrev pub Stacked : ℕ → List PlaneParams → ℕ → Type 0
Stacked start [] stop = start ≡ stop
Stacked start (l ∷ ls) stop =
    (l.plane_offset ≡ start) × (start % 32 ≡ 0) × Stacked (start + l.plane_size) ls stop

params_from-Stacked :
    (v : VideoFormat) (h : IsModest v) (start : ℕ) (ps : List ColorPlane)
    → All (λ p. p.bits_size ≤ 32) ps
    → start % 32 ≡ 0
    → start + 2 ^ 37 * length ps < 2 ^ 62
    → Stacked start (params_from v start ps).0 (params_from v start ps).1
      × ((params_from v start ps).1 % 32 ≡ 0)
      × ((params_from v start ps).1 < 2 ^ 62)
unfolding params_from
params_from-Stacked v h start [] b aligned fits = (refl, aligned, omega arith)
params_from-Stacked v h start (p ∷ ps) b aligned fits =
    let size = plane_size v p in
    let bounds = plane_size-bounds v h p b.0 in
    let limit = plane_size-le v h p b.0 in
    let no_wrap : wrap64 (start + size) ≡ start + size = omega (arith, limit) in
    let rest =
      params_from-Stacked v h (start + size) ps b.1 (omega (arith, bounds, aligned))
        (omega (arith, limit)) in
    rw no_wrap ((refl, aligned, rest.0), rest.1, rest.2)

-- For a camera of less than 65536 × 65536 pixels, in a format of four planes at most, each of 32
-- bits for a pixel at most, the planes of the frame follow one another without a gap or an overlap,
-- from 0 to the size of the buffer, each at a multiple of 32.
pub update_params-Stacked :
    (v : VideoFormat) (ps : List ColorPlane)
    → IsModest v
    → All (λ p. p.bits_size ≤ 32) ps
    → length ps ≤ 4
    → Stacked 0 (update_params v ps).0 (update_params v ps).1
unfolding update_params
update_params-Stacked v ps h b few =
    let stacked = params_from-Stacked v h 0 ps b refl (omega (arith, few)) in
    let whole : align_up (params_from v 0 ps).1 32 ≡ (params_from v 0 ps).1 =
      omega (arith, stacked, align_up_32_bounds (params_from v 0 ps).1 (omega (arith, stacked))) in
    rw whole (stacked.0)
