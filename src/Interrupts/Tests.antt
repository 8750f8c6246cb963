-- ===== src/Interrupts/Tests.antt =====
-- Runs of kernel/arch/i686/idt.c, irq.c and isr.c, and their theorems there.
use deva.Prelude.{ℕ, ◌+◌, ◌*◌, ◌%◌, ◌^◌, ◌≡◌, ◌⊎◌, refl, false, none, some}
use deva.Interrupts.{Stubs, null_segment, idt_init, init_gdt}
use deva.Interrupts.Gates.{stub_for, gate_present, Leads, idt_init-Leads}
use deva.Interrupts.Irq.{pit_divisor}

abbrev some_stubs : Stubs
some_stubs = record {
  isr = λ n. 0x00100000 + 16 * n;
  irq0_handler = 0x00101000;
  irq1_handler = 0x00101010;
  isr128 = 0x00101020;
}

idt_init-Leads_example :
    ((stub_for some_stubs 128 ≡ none)
      × (gate_present ((idt_init some_stubs 0x5000).idt 128) ≡ false))
    ⊎ ((address : ℕ) × (stub_for some_stubs 128 ≡ some address)
        × Leads
            (init_gdt (λ i. null_segment))
            ((idt_init some_stubs 0x5000).idt 128)
            (address % 2 ^ 32)
            3)
idt_init-Leads_example = idt_init-Leads some_stubs 0x5000 128 (λ i. null_segment)

-- 100 Hz, and 18 Hz, where the divisor does not fit into 16 bits.
pit_test : (pit_divisor 100 ≡ 11931) × (pit_divisor 18 ≡ 751)
unfolding pit_divisor
pit_test = (refl, refl)
