-- ===== src/Graphics/Pixels.antt =====
-- The drawing buffer as a grid of pixels.
use xenon_os.Base.{
  ℕ, ◌+◌, ◌*◌, ◌^◌, ◌<◌, ◌≤◌, ◌≡◌, ◌≢◌, ◌⊎◌, refl, true, false, ◌==◌, ◌&&◌, ◌||◌, ltb, leb,
  if◌then◌else◌, arith, ap, ◌∙◌, Bool-cases, inl, inr, dec_lt, add32, mul32, Bool,
}
use native.Mathlib.Nat.{mul-le-mul_right}
use xenon_os.Memory.{Bytes, store32, load32}
use xenon_os.Memory.Words.{load32-store32, load32-store32_apart, store32-far, Apart32}
use xenon_os.Graphics.{FramebufferInfo, gfx_put_pixel}

-- A buffer that does not run over the end of the address space, with room for each row.
pub record IsBuffer (info : FramebufferInfo) : Type 0 where
  pub proper : info.addr ≢ 0
  pub rows : 4 * info.width ≤ info.pitch
  pub below : info.addr + info.height * info.pitch ≤ 2 ^ 32

abbrev pub buffer_end : FramebufferInfo → ℕ
buffer_end info = info.addr + info.height * info.pitch

-- The colour at the column `u` of the row `v`.
unfoldable pub pixel : FramebufferInfo → ℕ → ℕ → Bytes → ℕ
pixel info u v m = load32 m (info.addr + v * info.pitch + 4 * u)

-- The bytes before and behind the buffer are the same.
abbrev pub SameOutside : FramebufferInfo → Bytes → Bytes → Type 0
SameOutside info m m' = (a : ℕ) → (a < info.addr) ⊎ (buffer_end info ≤ a) → m' a ≡ m a

abbrev pub visible : FramebufferInfo → ℕ → ℕ → Bool
visible info x y = ltb x info.width && ltb y info.height

module _ (info : FramebufferInfo) (buffer : IsBuffer info) where
  pixel-inside :
      (x y : ℕ)
      → x < info.width
      → y < info.height
      → info.addr + y * info.pitch + 4 * x + 4 ≤ buffer_end info
  pixel-inside x y a b =
      omega (
        arith,
        buffer.rows,
        mul-le-mul_right {m = y + 1} {n = info.height} info.pitch (omega arith),
      )

  -- Two pixels do not overlap.
  pixels-Apart :
      (u v x y : ℕ)
      → u < info.width
      → x < info.width
      → (u == x && v == y) ≡ false
      → Apart32 (info.addr + y * info.pitch + 4 * x) (info.addr + v * info.pitch + 4 * u)
  pixels-Apart u v x y a b ne = elim (dec_lt v y) [
    | yes above ↦
        omega (arith, buffer.rows, mul-le-mul_right {m = v + 1} {n = y} info.pitch (omega arith))
    | no not_above ↦ elim (dec_lt y v) [
      | yes under ↦
          omega (arith, buffer.rows, mul-le-mul_right {m = y + 1} {n = v} info.pitch (omega arith))
      | no level ↦
          let same : v ≡ y = omega arith in
          let apart : u ≢ x = λ e. absurd (ground (arith, ne, e, same)) in
          omega (arith, apart, ap (λ (n : ℕ). n * info.pitch) same)
    ]
  ]

  put-hidden :
      (x y color : ℕ) (m : Bytes) → visible info x y ≡ false → gfx_put_pixel info x y color m ≡ m
  unfolding gfx_put_pixel
  put-hidden x y color m e =
      let skip : (info.addr == 0 || leb info.width x || leb info.height y) ≡ true =
        ground (arith, e) in
      rw (skip, gfx_put_pixel) refl

  put-visible :
      (x y color : ℕ) (m : Bytes)
      → visible info x y ≡ true
      → gfx_put_pixel info x y color m ≡ store32 m (info.addr + y * info.pitch + 4 * x) color
  unfolding gfx_put_pixel
  put-visible x y color m e =
      let proper = buffer.proper in
      let draw : (info.addr == 0 || leb info.width x || leb info.height y) ≡ false =
        ground (arith, e) in
      let inside = pixel-inside x y (ground (arith, e)) (ground (arith, e)) in
      let row : mul32 y info.pitch ≡ y * info.pitch = omega (arith, inside, buffer.below) in
      let address : add32 (add32 info.addr (mul32 y info.pitch)) (4 * x)
          ≡ info.addr + y * info.pitch + 4 * x =
        omega (arith, row, inside, buffer.below) in
      rw (draw, gfx_put_pixel) (ap (λ (a : ℕ). store32 m a color) address)

  pub put-SameOutside :
      (x y color : ℕ) (m : Bytes) → SameOutside info m (gfx_put_pixel info x y color m)
  put-SameOutside x y color m a h = elim (Bool-cases (visible info x y)) [
    | inr hidden ↦ ap (λ (m' : Bytes). m' a) (put-hidden x y color m hidden)
    | inl shown ↦
        ap (λ (m' : Bytes). m' a) (put-visible x y color m shown)
        ∙ store32-far m _ color a
            (omega (arith, h, pixel-inside x y (ground (arith, shown)) (ground (arith, shown))))
  ]

  -- gfx_put_pixel sets the pixel, if it is on the screen, and no other.
  pub put-pixel :
      (x y color u v : ℕ) (m : Bytes)
      → color < 2 ^ 32
      → u < info.width
      → v < info.height
      → pixel info u v (gfx_put_pixel info x y color m)
        ≡ (if u == x && v == y then color else pixel info u v m)
  unfolding pixel
  put-pixel x y color u v m small a b = elim (Bool-cases (visible info x y)) [
    | inr hidden ↦
        let other : (u == x && v == y) ≡ false = ground (arith, hidden) in
        ap (pixel info u v) (put-hidden x y color m hidden) ∙ rw other refl
    | inl shown ↦
        ap (pixel info u v) (put-visible x y color m shown) ∙ elim (Bool-cases (u == x && v == y)) [
          | inl here ↦
              let address : info.addr + v * info.pitch + 4 * u
                  ≡ info.addr + y * info.pitch + 4 * x =
                ap (λ (n : ℕ). info.addr + n * info.pitch + 4 * u) (ground (arith, here))
                ∙ ap (λ (n : ℕ). info.addr + y * info.pitch + 4 * n) (ground (arith, here)) in
              rw here (
                ap (λ (n : ℕ). load32 (store32 m (info.addr + y * info.pitch + 4 * x) color) n)
                  address
                ∙ load32-store32 m _ color small)
          | inr elsewhere ↦ rw elsewhere (
              load32-store32_apart m _ color _
                (pixels-Apart u v x y a (ground (arith, shown)) (ground (arith, elsewhere))))
        ]
  ]
