-- ===== src/Interrupts/Gates.antt =====
-- The interrupt descriptor table as the processor reads it.
use xenon_os.Base.{
  ℕ, zero, suc, ◌+◌, ◌*◌, ◌/◌, ◌^◌, ◌<◌, ◌≡◌, refl, ◌==◌, ◌&&◌, ltb, leb, if◌then◌else◌, Option,
  none, some, true, arith, ap, ◌∙◌, Bool-cases, inl, inr,
}
use xenon_os.Base.Bits.{bit_and_mask}
use xenon_os.Interrupts.{
  Gate, Interrupts, Stubs, interrupt_gate, idt_set_gate, absent, clear_idt, set_gates, pic_remap,
  interrupts_initialize,
}

-- The handler that a present 32-bit interrupt gate of the kernel's code segment leads to.
abbrev pub target : Gate → Option ℕ
target g =
    if g.type_attr == 0x8E && g.selector == 0x08
    then some (g.offset_high * 2 ^ 16 + g.offset_low)
    else none

-- The stub for each vector.
abbrev pub stub_for : Stubs → ℕ → Option ℕ
stub_for stubs n =
    if n == 0
    then some stubs.divide_error_isr
    else if n == 6
    then some stubs.invalid_opcode_isr
    else if n == 13
    then some stubs.general_protection_fault_isr
    else if n == 14
    then some stubs.page_fault_isr
    else if n == 32
    then some stubs.timer_isr
    else if n == 33
    then some stubs.keyboard_isr
    else none

-- The stubs lie below 4 GB.
pub record AreWords (stubs : Stubs) : Type 0 where
  pub divide_error : stubs.divide_error_isr < 2 ^ 32
  pub invalid_opcode : stubs.invalid_opcode_isr < 2 ^ 32
  pub general_protection_fault : stubs.general_protection_fault_isr < 2 ^ 32
  pub page_fault : stubs.page_fault_isr < 2 ^ 32
  pub timer : stubs.timer_isr < 2 ^ 32
  pub keyboard : stubs.keyboard_isr < 2 ^ 32

gate-target : (handler : ℕ) → handler < 2 ^ 32 → target (interrupt_gate handler) ≡ some handler
unfolding interrupt_gate
gate-target handler lt =
    ap some (omega (arith, bit_and_mask 16 handler, bit_and_mask 16 (handler / 2 ^ 16)))

clear_idt-idt :
    (left i n : ℕ) (s : Interrupts)
    → (clear_idt left i s).idt n ≡ (if leb i n && ltb n (i + left) then absent else s.idt n)
unfolding clear_idt
clear_idt-idt zero i n s = ground arith
clear_idt-idt (suc left) i n s = clear_idt-idt left (i + 1) n _ ∙ ground arith

set-target :
    (number handler n : ℕ) (s : Interrupts)
    → handler < 2 ^ 32
    → target ((idt_set_gate number handler s).idt n)
      ≡ (if number == n then some handler else target (s.idt n))
unfolding idt_set_gate
set-target number handler n s lt = elim (Bool-cases (number == n)) [
  | inl here ↦ rw here (gate-target handler lt)
  | inr other ↦ rw other refl
]

-- After interrupts_initialize the processor finds each stub at the vector of its exception or
-- interrupt, no gate at the other vectors, and interrupts on.
pub interrupts_initialize_lem :
    (stubs : Stubs) (idt_address n : ℕ) (s : Interrupts)
    → AreWords stubs
    → n < 256
    → (target ((interrupts_initialize stubs idt_address s).idt n) ≡ stub_for stubs n)
      × ((interrupts_initialize stubs idt_address s).enabled ≡ true)
unfolding interrupts_initialize pic_remap set_gates absent
interrupts_initialize_lem stubs idt_address n s words lt =
    let s0 = clear_idt 256 0 s in
    let s1 = idt_set_gate 0 stubs.divide_error_isr s0 in
    let s2 = idt_set_gate 6 stubs.invalid_opcode_isr s1 in
    let s3 = idt_set_gate 13 stubs.general_protection_fault_isr s2 in
    let s4 = idt_set_gate 14 stubs.page_fault_isr s3 in
    let s5 = idt_set_gate 32 stubs.timer_isr s4 in
    let inside : (leb 0 n && ltb n (0 + 256)) ≡ true = ground arith in
    let clear : target (s0.idt n) ≡ none = ap target (clear_idt-idt 256 0 n s) ∙ (rw inside refl) in
    (
      set-target 33 stubs.keyboard_isr n s5 words.keyboard
          ∙ ground (
            arith,
            set-target 32 stubs.timer_isr n s4 words.timer,
            set-target 14 stubs.page_fault_isr n s3 words.page_fault,
            set-target 13 stubs.general_protection_fault_isr n s2 words.general_protection_fault,
            set-target 6 stubs.invalid_opcode_isr n s1 words.invalid_opcode,
            set-target 0 stubs.divide_error_isr n s0 words.divide_error,
            clear,
          ),
      refl,
    )
