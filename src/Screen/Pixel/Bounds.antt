-- ===== src/Screen/Pixel/Bounds.antt =====
-- The sums of `blend` fit a byte.
use webuiboot.Base.{ℕ, ◌+◌, ◌-◌, ◌*◌, ◌/◌, ◌^◌, ◌≤◌, ◌<◌, ◌≡◌, refl, arith}
use native.Mathlib.Nat.{mul-le-mul_right}
use webuiboot.Screen.Pixel.{BltPixel, PremultipliedRgbaColor, from_rgb, blend_channel, blend}

-- Every byte of the colour fits, and none of its channels is above its alpha, as in a premultiplied colour.
abbrev pub IsPremultiplied : PremultipliedRgbaColor → Type 0
IsPremultiplied color =
    (color.alpha < 2 ^ 8)
    × (color.red ≤ color.alpha)
    × (color.green ≤ color.alpha)
    × (color.blue ≤ color.alpha)

abbrev pub IsPixel : BltPixel → Type 0
IsPixel p = (p.red < 2 ^ 8) × (p.green < 2 ^ 8) × (p.blue < 2 ^ 8)

-- a channel without a cut
abbrev pub over : ℕ → ℕ → ℕ → ℕ
over alpha below above = below * (255 - alpha) / 255 + above

part-le : (a below : ℕ) → below ≤ 255 → below * a / 255 ≤ a
part-le a below h = omega (arith, mul-le-mul_right a h)

blend_channel_lem :
    (alpha below above : ℕ)
    → alpha < 2 ^ 8
    → below < 2 ^ 8
    → above ≤ alpha
    → (blend_channel (255 - alpha) below above ≡ over alpha below above)
      × (over alpha below above < 2 ^ 8)
blend_channel_lem alpha below above h hb ha =
    let p = part-le (255 - alpha) below (omega arith) in (omega arith, omega arith)

-- Blending a premultiplied colour onto a pixel overflows no byte: every channel is the exact sum of
-- the colour's and of the part of the pixel's that shows through, and the result is a pixel again.
pub blend_lem :
    (color : PremultipliedRgbaColor) (p : BltPixel)
    → IsPremultiplied color
    → IsPixel p
    → (blend color p
        ≡ from_rgb
            (over color.alpha p.red color.red)
            (over color.alpha p.green color.green)
            (over color.alpha p.blue color.blue))
      × IsPixel (blend color p)
unfolding blend
blend_lem color p (h, r, g, b) (hr, hg, hb) =
    let (red, fits_red) = blend_channel_lem color.alpha p.red color.red h hr r in
    let (green, fits_green) = blend_channel_lem color.alpha p.green color.green h hg g in
    let (blue, fits_blue) = blend_channel_lem color.alpha p.blue color.blue h hb b in
    (rw (red, green, blue) refl, (rw red fits_red, rw green fits_green, rw blue fits_blue))
