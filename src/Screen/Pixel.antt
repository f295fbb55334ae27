-- ===== src/Screen/Pixel.antt =====
-- src/slint_plat.rs: the pixels of the frame buffer, and how a colour is blended onto one. A `u8` sum
-- is taken modulo 2 ^ 8, as in a build without checks.
pub mod Bounds
use webuiboot.Base.{ℕ, ◌+◌, ◌-◌, ◌*◌, ◌/◌, ◌%◌, ◌^◌}

pub record BltPixel : Type 0 where
  pub red : ℕ
  pub green : ℕ
  pub blue : ℕ

-- `from_rgb`, and the crate's `BltPixel::new`
abbrev pub from_rgb : ℕ → ℕ → ℕ → BltPixel
from_rgb red green blue = record { red = red; green = green; blue = blue }

abbrev pub white : BltPixel
white = from_rgb 255 255 255

abbrev pub black : BltPixel
black = from_rgb 0 0 0

pub record PremultipliedRgbaColor : Type 0 where
  pub alpha : ℕ
  pub red : ℕ
  pub green : ℕ
  pub blue : ℕ

-- `(self.0.red as u16 * a / 255) as u8 + color.red`, for one of the three
abbrev pub blend_channel : ℕ → ℕ → ℕ → ℕ
blend_channel a below above = (below * a / 255 % 2 ^ 8 + above) % 2 ^ 8

unfoldable pub blend : PremultipliedRgbaColor → BltPixel → BltPixel
blend color p =
    let a = 255 - color.alpha in
    from_rgb (blend_channel a p.red color.red) (blend_channel a p.green color.green)
      (blend_channel a p.blue color.blue)
