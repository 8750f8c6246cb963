-- ===== src/Interrupts/Irq.antt =====
-- Hardware interrupts and the timer, kernel/arch/i686/irq.c. The ports are those of `Bus`; the
-- kernel that `schedule` and the handlers change is of type `K`, and `sti` is left out.
use deva.Prelude.{
  ℕ, ◌+◌, ◌/◌, ◌%◌, ◌^◌, Option, none, some, ltb, leb, ◌==◌, if◌then◌else◌, update, bit_and,
}
use deva.Prelude.Int.{ℤ, pos, negsuc}
use deva.Ata.{Bus}

abbrev pub pic1 : ℕ
pic1 = 0x20

abbrev pub pic2 : ℕ
pic2 = 0xA0

abbrev pub pit_command : ℕ
pit_command = 0x43

abbrev pub pit_channel0 : ℕ
pit_channel0 = 0x40

abbrev pub pit_frequency : ℕ
pit_frequency = 1193180

-- The static variables, with the ports and the rest of the kernel.
pub record Irq (D K : Type 0) : Type 0 where
  pub irq_routines : ℕ → Option (K → K)
  pub timer_ticks : ℕ
  pub device : D
  pub kernel : K

-- The divisor of the timer; the source divides by zero where `freq` is 0.
unfoldable pub pit_divisor : ℕ → ℕ
pit_divisor freq = pit_frequency / freq % 2 ^ 16

module _ {D : Type 0} (bus : Bus D) where
  pub remap_pic : D → D
  remap_pic d =
      let d1 = bus.outb pic2 0x11 (bus.outb pic1 0x11 d) in
      let d2 = bus.outb (pic2 + 1) 0x28 (bus.outb (pic1 + 1) 0x20 d1) in
      let d3 = bus.outb (pic2 + 1) 0x02 (bus.outb (pic1 + 1) 0x04 d2) in
      let d4 = bus.outb (pic2 + 1) 0x01 (bus.outb (pic1 + 1) 0x01 d3) in
      bus.outb (pic2 + 1) 0xFF (bus.outb (pic1 + 1) 0xFF d4)

  pub pit_init : ℕ → D → D
  pit_init freq d =
      let d1 = bus.outb pit_command 0x36 d in
      let d2 = bus.outb pit_channel0 (pit_divisor freq % 2 ^ 8) d1 in
      bus.outb pit_channel0 (pit_divisor freq / 2 ^ 8 % 2 ^ 8) d2

  -- The timer and the keyboard.
  pub irq_unmask : D → D
  irq_unmask d = bus.outb 0xA1 0xFF (bus.outb 0x21 0xFC d)

  pub irq_enable_keyboard : D → D
  irq_enable_keyboard d =
      let (master, d1) = bus.inb 0x21 d in bus.outb 0x21 (bit_and master 0xFD) d1

  -- The end of the interrupt, before the work: `schedule` may not come back for a while.
  pub acknowledge : ℕ → D → D
  acknowledge int_no d =
      let d1 = if leb 40 int_no then bus.outb 0xA0 0x20 d else d in bus.outb 0x20 0x20 d1

module _ {D K : Type 0} where
  pub irq_install_handler : ℤ → (K → K) → Irq D K → Irq D K
  irq_install_handler (negsuc n) handler s = s
  irq_install_handler (pos irq) handler s =
      if ltb irq 16 then record s { irq_routines = update s.irq_routines irq (some handler) } else s

  -- `int_no - 32` is 0 for the timer and 1 for the keyboard.
  pub irq_handler : Bus D → (K → K) → ℕ → Irq D K → Irq D K
  irq_handler bus schedule int_no s =
      let s1 = record s { device = acknowledge bus int_no s.device } in
      let handled : K = elim (s.irq_routines 1) [ none ↦ s.kernel | some run ↦ run s.kernel ] in
      if int_no == 32
      then record s1 { timer_ticks = (s.timer_ticks + 1) % 2 ^ 32; kernel = schedule s.kernel }
      else if int_no == 33
      then record s1 { kernel = handled }
      else s1
