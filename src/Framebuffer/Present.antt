-- ===== src/Framebuffer/Present.antt =====
-- framebuffer_present: the drawing buffer on the screen.
use xenon_os.Base.{
  ℕ, ◌+◌, ◌-◌, ◌*◌, ◌^◌, ◌<◌, ◌≡◌, refl, arith, ap, ◌∙◌, mul32, Bool-cases, inl, inr, if◌then◌else◌,
}
use xenon_os.Memory.{Bytes, memcpy}
use xenon_os.Memory.Copy.{IsBytes, Disjoint, within, memcpy-at}
use xenon_os.Framebuffer.{Framebuffer, framebuffer_present}

abbrev pub memory_of : Framebuffer → Bytes
memory_of s = s.heap.space.memory

-- Once a framebuffer is there, and where the buffer does not overlap the mapping of the hardware,
-- framebuffer_present copies each byte of the buffer to the same place of the hardware, and changes
-- neither the buffer nor any other byte; before, it changes nothing at all.
pub framebuffer_present_lem :
    (s : Framebuffer) (a : ℕ)
    → IsBytes (memory_of s)
    → s.info.pitch * s.info.height < 2 ^ 32
    → Disjoint s.hw_addr s.info.addr (s.info.pitch * s.info.height)
    → memory_of (framebuffer_present s) a ≡ (
        if s.initialized
        then (if within s.hw_addr (s.info.pitch * s.info.height) a
            then memory_of s (s.info.addr + (a - s.hw_addr))
            else memory_of s a)
        else memory_of s a)
unfolding framebuffer_present
framebuffer_present_lem s a bytes small apart =
    let size : mul32 s.info.pitch s.info.height ≡ s.info.pitch * s.info.height = omega arith in
    let copied =
      ap (λ (n : ℕ). memcpy s.hw_addr s.info.addr n (memory_of s) a) size
      ∙ memcpy-at s.hw_addr s.info.addr (s.info.pitch * s.info.height) a (memory_of s) bytes
          apart in
    elim (Bool-cases s.initialized) [
      | inl there ↦ simp there copied
      | inr missing ↦ simp missing refl
    ]
