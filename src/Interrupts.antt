-- ===== src/Interrupts.antt =====
-- Descriptor tables and interrupts: kernel/arch/i686/idt.c and kernel/drivers/gdt/gdt.c here,
-- kernel/arch/i686/irq.c in Irq and kernel/arch/i686/isr.c in Exception. The addresses of the
-- assembly stubs are arguments, and so are those of the tables; `lidt` and `lgdt` are left out.
pub mod Gates
pub mod Irq
pub mod Exception
mod Tests
use deva.Prelude.{ℕ, zero, suc, ◌+◌, ◌-◌, ◌*◌, ◌/◌, ◌%◌, ◌^◌, ◌==◌, if◌then◌else◌, update}

pub record IdtEntry : Type 0 where
  pub base_lo : ℕ
  pub sel : ℕ
  pub always0 : ℕ
  pub flags : ℕ
  pub base_hi : ℕ

-- `struct idt_ptr` and `struct GDTPtr`.
pub record TablePtr : Type 0 where
  pub limit : ℕ
  pub base : ℕ

pub record Idt : Type 0 where
  pub idt : ℕ → IdtEntry
  pub idtp : TablePtr

-- The stubs of kernel/arch/i686 that the gates name.
pub record Stubs : Type 0 where
  pub isr : ℕ → ℕ
  pub irq0_handler : ℕ
  pub irq1_handler : ℕ
  pub isr128 : ℕ

-- `memset(&idt, 0, sizeof(idt))` for one entry.
abbrev pub no_gate : IdtEntry
no_gate = record { base_lo = 0; sel = 0; always0 = 0; flags = 0; base_hi = 0 }

pub idt_set_gate : ℕ → ℕ → ℕ → ℕ → (ℕ → IdtEntry) → ℕ → IdtEntry
idt_set_gate num base sel flags idt = update idt num (record {
  base_lo = base % 2 ^ 16;
  base_hi = base / 2 ^ 16 % 2 ^ 16;
  sel = sel;
  always0 = 0;
  flags = flags;
})

-- `SET_ISR` for `n` vectors from `i` on.
pub set_isrs : Stubs → ℕ → ℕ → (ℕ → IdtEntry) → ℕ → IdtEntry
set_isrs stubs i zero idt = idt
set_isrs stubs i (suc n) idt = set_isrs stubs (i + 1) n (idt_set_gate i (stubs.isr i) 0x08 0x8E idt)

-- The table that `idt_init` loads; `at` is its address. The call of `remap_pic`, which touches ports
-- alone, stands in Irq. An entry has eight bytes.
pub idt_init : Stubs → ℕ → Idt
idt_init stubs at =
    let exceptions = set_isrs stubs 0 32 (λ n. no_gate) in
    let timer = idt_set_gate 32 stubs.irq0_handler 0x08 0x8E exceptions in
    let keyboard = idt_set_gate 33 stubs.irq1_handler 0x08 0x8E timer in
    record {
      idt = idt_set_gate 128 stubs.isr128 0x08 0xEE keyboard;
      idtp = record { limit = 256 * 8 - 1; base = at };
    }

pub record GdtEntry : Type 0 where
  pub limit_low : ℕ
  pub base_low : ℕ
  pub base_middle : ℕ
  pub access : ℕ
  pub granularity : ℕ
  pub base_high : ℕ

abbrev pub gdt_kernel_cs : ℕ
gdt_kernel_cs = 1

abbrev pub gdt_kernel_ds : ℕ
gdt_kernel_ds = 2

abbrev pub gdt_user_cs : ℕ
gdt_user_cs = 3

abbrev pub gdt_user_ds : ℕ
gdt_user_ds = 4

abbrev pub gdt_entries : ℕ
gdt_entries = 5

-- A segment over the whole address space.
abbrev pub flat_segment : ℕ → GdtEntry
flat_segment access = record {
  limit_low = 0xFFFF;
  base_low = 0;
  base_middle = 0;
  access = access;
  granularity = 0xCF;
  base_high = 0;
}

abbrev pub null_segment : GdtEntry
null_segment = record {
  limit_low = 0;
  base_low = 0;
  base_middle = 0;
  access = 0;
  granularity = 0;
  base_high = 0;
}

-- The entries that `init_gdt` writes over those there.
pub init_gdt : (ℕ → GdtEntry) → ℕ → GdtEntry
init_gdt gdt =
    let null = update gdt 0 null_segment in
    let kernel_cs = update null gdt_kernel_cs (flat_segment 0x9A) in
    let kernel_ds = update kernel_cs gdt_kernel_ds (flat_segment 0x92) in
    let user_cs = update kernel_ds gdt_user_cs (flat_segment 0xFA) in
    update user_cs gdt_user_ds (flat_segment 0xF2)

-- The pointer that is loaded, for a table at `at`.
pub gdt_ptr : ℕ → TablePtr
gdt_ptr at = record { limit = gdt_entries * 8 - 1; base = at }
