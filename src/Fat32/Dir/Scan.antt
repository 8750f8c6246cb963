-- ===== src/Fat32/Dir/Scan.antt =====
-- A new entry of kernel/drivers/fat32/fat32.c is found where `dir_add_entry` puts it.
use deva.Prelude.{
  ==_iff, ℕ, zero, suc, ◌+◌, ◌-◌, ◌≤◌, ◌<◌, ◌≡◌, ◌≢◌, ◌⊎◌, inl, inr, refl, sym, ap, ◌∙◌, true,
  false, ◌||◌, some, arith, ◌==◌, if◌then◌else◌, Bool-cases, bit_and,
}
use deva.Fat32.Dir.{attr_lfn, deleted, same_bytes, is_skipped, ended, hit, scan_entries, put_entry}
use deva.Fat32.Dir.Slot.{free_slot}

-- The bytes of a name are those of the target.
same_bytes-cong :
    (n : ℕ) (buf buf' target : ℕ → ℕ) (at at' i : ℕ)
    → ((j : ℕ) → j < i + n → buf' (at' + j) ≡ buf (at + j))
    → same_bytes buf' at' target i n ≡ same_bytes buf at target i n
unfolding same_bytes
same_bytes-cong zero buf buf' target at at' i same = refl
same_bytes-cong (suc n) buf buf' target at at' i same =
    rw (same i (omega arith))
      (rw (same_bytes-cong n buf buf' target at at' (i + 1) (λ j lt. same j (omega arith))) refl)

same_bytes_self :
    (n : ℕ) (buf target : ℕ → ℕ) (at i : ℕ)
    → ((j : ℕ) → j < i + n → buf (at + j) ≡ target j)
    → same_bytes buf at target i n ≡ true
unfolding same_bytes
same_bytes_self zero buf target at i same = refl
same_bytes_self (suc n) buf target at i same =
    let here : (buf (at + i) == target i) ≡ true =
      (==_iff (buf (at + i)) (target i)).1 (same i (omega arith)) in
    rw here (same_bytes_self n buf target at (i + 1) (λ j lt. same j (omega arith)))

put_entry-before :
    (buf entry : ℕ → ℕ) (offset i : ℕ) → i < offset → put_entry buf offset entry i ≡ buf i
unfolding put_entry
put_entry-before buf entry offset i h = ground arith

pub put_entry-inside :
    (buf entry : ℕ → ℕ) (offset j : ℕ) → j < 32 → put_entry buf offset entry (offset + j) ≡ entry j
unfolding put_entry
put_entry-inside buf entry offset j h =
    let e : offset + j - offset ≡ j = omega arith in ground (arith, e, ap entry e)

free_slot-le : (n at o : ℕ) (buf : ℕ → ℕ) → free_slot buf at n ≡ some o → at ≤ o
unfolding free_slot
free_slot-le zero at o buf e = absurd (ground (arith, e))
free_slot-le (suc n) at o buf e =
    let rest = free_slot-le n (at + 32) o buf in ground (arith, rest, e)

-- An entry that a search does not pass over.
pub record IsLive (entry target : ℕ → ℕ) : Type 0 where
  pub used : entry 0 ≢ 0
  pub kept : entry 0 ≢ deleted
  pub short : bit_and (entry 11) attr_lfn ≢ attr_lfn
  pub named : (i : ℕ) → i < 11 → entry i ≡ target i

-- One round of the search.
scan_step :
    (n at : ℕ) (buf target : ℕ → ℕ)
    → scan_entries target buf at (suc n) ≡ (
        if buf at == 0
        then ended
        else if is_skipped buf at
        then scan_entries target buf (at + 32) n
        else if same_bytes buf at target 0 11
        then hit at
        else scan_entries target buf (at + 32) n)
unfolding scan_entries
scan_step n at buf target = refl

scan_here :
    (n at : ℕ) (buf target : ℕ → ℕ)
    → buf at ≢ 0
    → is_skipped buf at ≡ false
    → same_bytes buf at target 0 11 ≡ true
    → scan_entries target buf at (suc n) ≡ hit at
scan_here n at buf target used kept named =
    let nonzero : (buf at == 0) ≡ false = ground (arith, used) in
    rw (scan_step n at buf target) (rw nonzero (rw kept (rw named refl)))

scan_on :
    (n at : ℕ) (buf target : ℕ → ℕ)
    → buf at ≢ 0
    → (is_skipped buf at ≡ true) ⊎ (same_bytes buf at target 0 11 ≡ false)
    → scan_entries target buf at (suc n) ≡ scan_entries target buf (at + 32) n
scan_on n at buf target used (inl skipped) =
    let nonzero : (buf at == 0) ≡ false = ground (arith, used) in
    rw (scan_step n at buf target) (rw nonzero (rw skipped refl))
scan_on n at buf target used (inr other) =
    let nonzero : (buf at == 0) ≡ false = ground (arith, used) in
    rw (scan_step n at buf target) (
      rw nonzero (elim (Bool-cases (is_skipped buf at)) [
        | inl skipped ↦ rw skipped refl
        | inr kept ↦ rw kept (rw other refl)
      ]))

is_skipped-cong :
    (buf buf' : ℕ → ℕ) (at at' : ℕ)
    → buf' at' ≡ buf at
    → buf' (at' + 11) ≡ buf (at + 11)
    → is_skipped buf' at' ≡ is_skipped buf at
unfolding is_skipped
is_skipped-cong buf buf' at at' e f = rw e (rw f refl)

live_kept : (entry target : ℕ → ℕ) → IsLive entry target → is_skipped entry 0 ≡ false
unfolding is_skipped
live_kept entry target live = ground (arith, live.kept, live.short)

-- The first free slot of a cluster gets a live entry with the name of the search, and no entry with
-- the name was found before: now the search finds the slot.
pub scan_entries-put_entry :
    (n at o : ℕ) (buf entry target : ℕ → ℕ)
    → free_slot buf at n ≡ some o
    → ((p : ℕ) → scan_entries target buf at n ≢ hit p)
    → IsLive entry target
    → scan_entries target (put_entry buf o entry) at n ≡ hit o
unfolding free_slot
scan_entries-put_entry zero at o buf entry target e none_before live = absurd (ground (arith, e))
scan_entries-put_entry (suc n) at o buf entry target e none_before live =
    elim (Bool-cases (buf at == 0 || buf at == deleted)) [
      | inl free ↦
          let here : at ≡ o = ground (arith, e, free) in
          let inside = put_entry-inside buf entry o in
          let first : put_entry buf o entry o ≡ entry 0 =
            ap (put_entry buf o entry) (omega arith) ∙ inside 0 (omega arith) in
          let kept =
            is_skipped-cong entry (put_entry buf o entry) 0 o first (inside 11 (omega arith))
            ∙ live_kept entry target live in
          let named =
            same_bytes_self 11 (put_entry buf o entry) target o 0
              (λ j lt. inside j (omega arith) ∙ live.named j (omega arith)) in
          rw here (
            scan_here n o (put_entry buf o entry) target (λ z. live.used (sym first ∙ z)) kept
              named)
      | inr taken ↦
          let used : buf at ≢ 0 = ground (arith, taken) in
          let slot : free_slot buf (at + 32) n ≡ some o = ground (arith, taken, e) in
          let far = free_slot-le n (at + 32) o buf slot in
          let buf' = put_entry buf o entry in
          let same : (j : ℕ) → j < 32 → buf' (at + j) ≡ buf (at + j) =
            λ j lt. put_entry-before buf entry o (at + j) (omega arith) in
          let first : buf' at ≡ buf at = put_entry-before buf entry o at (omega arith) in
          let skips = is_skipped-cong buf buf' at at first (same 11 (omega arith)) in
          let names = same_bytes-cong 11 buf buf' target at at 0 (λ j lt. same j (omega arith)) in
          let used' : buf' at ≢ 0 = λ z. used (sym first ∙ z) in
          let passed : (is_skipped buf at ≡ true) ⊎ (same_bytes buf at target 0 11 ≡ false) =
            elim (Bool-cases (is_skipped buf at)) [
              | inl skipped ↦ inl skipped
              | inr kept ↦ elim (Bool-cases (same_bytes buf at target 0 11)) [
                | inl named ↦ absurd (none_before at (scan_here n at buf target used kept named))
                | inr other ↦ inr other
              ]
            ] in
          let passed' : (is_skipped buf' at ≡ true) ⊎ (same_bytes buf' at target 0 11 ≡ false) =
            elim passed [ inl skipped ↦ inl (skips ∙ skipped) | inr other ↦ inr (names ∙ other) ] in
          let later =
            scan_entries-put_entry n (at + 32) o buf entry target slot
              (λ p found. none_before p (scan_on n at buf target used passed ∙ found)) live in
          scan_on n at buf' target used' passed' ∙ later
    ]
