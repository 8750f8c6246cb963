-- ===== src/Interrupts/Gates.antt =====
-- The gates that kernel/arch/i686/idt.c sets, through the segments of kernel/drivers/gdt/gdt.c.
use deva.Prelude.{
  ℕ, zero, suc, ◌+◌, ◌*◌, ◌/◌, ◌%◌, ◌^◌, ◌≡◌, ◌⊎◌, inl, inr, refl, ap, ◌∙◌, Bool, true, false, ◌&&◌,
  Option, none, some, arith, ltb, leb, ◌==◌, if◌then◌else◌, Bool-cases,
}
use deva.Interrupts.{IdtEntry, Stubs, GdtEntry, no_gate, idt_set_gate, set_isrs, idt_init, init_gdt}

-- The address that a gate leads to, whether it is present, and the ring that may call it.
abbrev pub target : IdtEntry → ℕ
target e = e.base_hi * 2 ^ 16 + e.base_lo

abbrev pub gate_present : IdtEntry → Bool
gate_present e = e.flags / 2 ^ 7 == 1

abbrev pub gate_ring : IdtEntry → ℕ
gate_ring e = e.flags / 2 ^ 5 % 4

-- The segment that a selector names, and its ring, whether it is code and present.
abbrev pub segment : (ℕ → GdtEntry) → ℕ → GdtEntry
segment gdt sel = gdt (sel / 8)

abbrev pub segment_ring : GdtEntry → ℕ
segment_ring e = e.access / 2 ^ 5 % 4

abbrev pub is_code : GdtEntry → Bool
is_code e = e.access / 2 ^ 7 == 1 && e.access / 2 ^ 3 % 4 == 3

-- The stub for a vector.
abbrev pub stub_for : Stubs → ℕ → Option ℕ
stub_for stubs n =
    if ltb n 32
    then some (stubs.isr n)
    else if n == 32
    then some stubs.irq0_handler
    else if n == 33
    then some stubs.irq1_handler
    else if n == 128
    then some stubs.isr128
    else none

abbrev pub gate : ℕ → ℕ → IdtEntry
gate base flags = record {
  base_lo = base % 2 ^ 16;
  base_hi = base / 2 ^ 16 % 2 ^ 16;
  sel = 0x08;
  always0 = 0;
  flags = flags;
}

set_isrs_lem :
    (stubs : Stubs) (i n : ℕ) (idt : ℕ → IdtEntry) (v : ℕ)
    → set_isrs stubs i n idt v
      ≡ (if leb i v && ltb v (i + n) then gate (stubs.isr v) 0x8E else idt v)
unfolding set_isrs idt_set_gate
set_isrs_lem stubs i zero idt v = ground arith
set_isrs_lem stubs i (suc n) idt v =
    let ih = set_isrs_lem stubs (i + 1) n (idt_set_gate i (stubs.isr i) 0x08 0x8E idt) v in
    let here : i ≡ v → gate (stubs.isr i) 0x8E ≡ gate (stubs.isr v) 0x8E =
      λ e. ap (λ (k : ℕ). gate (stubs.isr k) 0x8E) e in
    ih ∙ ground (arith, here)

idt_init_lem :
    (stubs : Stubs) (at v : ℕ)
    → (idt_init stubs at).idt v ≡ (
        if 128 == v
        then gate stubs.isr128 0xEE
        else if 33 == v
        then gate stubs.irq1_handler 0x8E
        else if 32 == v
        then gate stubs.irq0_handler 0x8E
        else if ltb v 32
        then gate (stubs.isr v) 0x8E
        else no_gate)
unfolding idt_init idt_set_gate
idt_init_lem stubs at v =
    let isrs = set_isrs_lem stubs 0 32 (λ n. no_gate) v in ground (arith, isrs)

-- What the processor does with a gate of the table: a gate with a stub.
pub record Leads (gdt : ℕ → GdtEntry) (e : IdtEntry) (address ring : ℕ) : Type 0 where
  pub to_stub : target e ≡ address
  pub present : gate_present e ≡ true
  pub from_ring : gate_ring e ≡ ring
  pub code : is_code (segment gdt e.sel) ≡ true
  pub kernel : segment_ring (segment gdt e.sel) ≡ 0

gate-Leads :
    (old : ℕ → GdtEntry) (address flags ring : ℕ)
    → flags / 2 ^ 7 ≡ 1
    → flags / 2 ^ 5 % 4 ≡ ring
    → Leads (init_gdt old) (gate address flags) (address % 2 ^ 32) ring
unfolding init_gdt
gate-Leads old address flags ring p r = record {
  to_stub = omega arith;
  present = ground (arith, p);
  from_ring = r;
  code = refl;
  kernel = refl;
}

-- After idt_init and init_gdt the gate of a vector that has a stub leads to it, in the kernel's code
-- segment, which is present, and only the vector 0x80 may be called from user mode; the gate of every
-- other vector is not present.
pub idt_init-Leads :
    (stubs : Stubs) (at v : ℕ) (old : ℕ → GdtEntry)
    → ((stub_for stubs v ≡ none) × (gate_present ((idt_init stubs at).idt v) ≡ false))
      ⊎ ((address : ℕ) × (stub_for stubs v ≡ some address)
          × Leads
              (init_gdt old)
              ((idt_init stubs at).idt v)
              (address % 2 ^ 32)
              (if v == 128 then 3 else 0))
idt_init-Leads stubs at v old =
    let lem = idt_init_lem stubs at v in
    elim (Bool-cases (v == 128)) [
      | inl e ↦
          let h : v ≡ 128 = ground (arith, e) in
          rw (lem, h) (inr (stubs.isr128, refl, gate-Leads old stubs.isr128 0xEE 3 refl refl))
      | inr n128 ↦ elim (Bool-cases (v == 33)) [
        | inl e ↦
            let h : v ≡ 33 = ground (arith, e) in
            rw (lem, h)
              (inr (stubs.irq1_handler, refl, gate-Leads old stubs.irq1_handler 0x8E 0 refl refl))
        | inr n33 ↦ elim (Bool-cases (v == 32)) [
          | inl e ↦
              let h : v ≡ 32 = ground (arith, e) in
              rw (lem, h)
                (inr (stubs.irq0_handler, refl, gate-Leads old stubs.irq0_handler 0x8E 0 refl refl))
          | inr n32 ↦ elim (Bool-cases (ltb v 32)) [
            | inl e ↦
                let entry : (idt_init stubs at).idt v ≡ gate (stubs.isr v) 0x8E =
                  lem ∙ ground (arith, n128, n33, n32, e) in
                rw (entry, n128)
                  (inr
                    (stubs.isr v, ground (arith, e), gate-Leads old (stubs.isr v) 0x8E 0 refl refl))
            | inr big ↦
                let entry : (idt_init stubs at).idt v ≡ no_gate =
                  lem ∙ ground (arith, n128, n33, n32, big) in
                rw entry (inl (ground (arith, n128, n33, n32, big), refl))
          ]
        ]
      ]
    ]
