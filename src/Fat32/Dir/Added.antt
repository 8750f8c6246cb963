-- ===== src/Fat32/Dir/Added.antt =====
-- What a search reads from the entry that `dir_add_entry` of kernel/drivers/fat32/fat32.c writes.
use deva.Prelude.{ℕ, ◌+◌, ◌^◌, ◌<◌, ◌≡◌, ◌≢◌, refl, sym, ap, ◌∙◌, some, List, arith, bit_and}
use deva.Fat32.{get16, get32}
use deva.Fat32.Names.{to_83}
use deva.Fat32.Dir.{attr_lfn, deleted, scan_entries, hit, put_entry, new_entry, first_cluster}
use deva.Fat32.Dir.Slot.{free_slot}
use deva.Fat32.Dir.Scan.{IsLive, put_entry-inside, scan_entries-put_entry}

-- The name as the search has it, in a cleared entry.
abbrev pub target_of : List ℕ → ℕ → ℕ
target_of name = to_83 name (λ i. 0)

new_entry-name :
    (name : List ℕ) (attr cluster size i : ℕ)
    → i < 11
    → new_entry name attr cluster size i ≡ target_of name i
unfolding new_entry
new_entry-name name attr cluster size i h = ground arith

new_entry-attr :
    (name : List ℕ) (attr cluster size : ℕ)
    → attr < 2 ^ 8
    → new_entry name attr cluster size 11 ≡ attr
unfolding new_entry
new_entry-attr name attr cluster size h = ground arith

new_entry-cluster :
    (name : List ℕ) (attr cluster size : ℕ)
    → cluster < 2 ^ 32
    → first_cluster (new_entry name attr cluster size) 0 ≡ cluster
unfolding new_entry first_cluster get16
new_entry-cluster name attr cluster size h = ground arith

new_entry-size :
    (name : List ℕ) (attr cluster size : ℕ)
    → size < 2 ^ 32
    → get32 (new_entry name attr cluster size) 28 ≡ size
unfolding new_entry get32
new_entry-size name attr cluster size h = ground arith

byte_at : (buf entry : ℕ → ℕ) (o i j : ℕ) → i ≡ o + j → j < 32 → put_entry buf o entry i ≡ entry j
byte_at buf entry o i j e h = ap (put_entry buf o entry) e ∙ put_entry-inside buf entry o j h

-- The words of an entry, read where it stands in the cluster.
placed-cluster :
    (buf entry : ℕ → ℕ) (o : ℕ) → first_cluster (put_entry buf o entry) o ≡ first_cluster entry 0
unfolding first_cluster get16
placed-cluster buf entry o = rw (byte_at buf entry o (o + 20) 20 refl (omega arith)) (
    rw (byte_at buf entry o (o + 20 + 1) 21 (omega arith) (omega arith)) (
      rw (byte_at buf entry o (o + 26) 26 refl (omega arith))
        (rw (byte_at buf entry o (o + 26 + 1) 27 (omega arith) (omega arith)) refl)))

placed-size : (buf entry : ℕ → ℕ) (o : ℕ) → get32 (put_entry buf o entry) (o + 28) ≡ get32 entry 28
unfolding get32
placed-size buf entry o = rw (byte_at buf entry o (o + 28) 28 refl (omega arith)) (
    rw (byte_at buf entry o (o + 28 + 1) 29 (omega arith) (omega arith)) (
      rw (byte_at buf entry o (o + 28 + 2) 30 (omega arith) (omega arith))
        (rw (byte_at buf entry o (o + 28 + 3) 31 (omega arith) (omega arith)) refl)))

-- The first free slot of a cluster gets the entry that dir_add_entry builds, where a search did not find
-- the name before: with attributes that are not those of a long name, and a name whose first byte on the
-- disk marks neither the end nor a deleted entry, the search finds the slot, and reads the cluster and the
-- size there.
pub added_lem :
    (n o : ℕ) (buf : ℕ → ℕ) (name : List ℕ) (attr cluster size : ℕ)
    → free_slot buf 0 n ≡ some o
    → ((p : ℕ) → scan_entries (target_of name) buf 0 n ≢ hit p)
    → target_of name 0 ≢ 0
    → target_of name 0 ≢ deleted
    → attr < 2 ^ 8
    → bit_and attr attr_lfn ≢ attr_lfn
    → cluster < 2 ^ 32
    → size < 2 ^ 32
    → (let after = put_entry buf o (new_entry name attr cluster size) in
        (scan_entries (target_of name) after 0 n ≡ hit o)
        × (first_cluster after o ≡ cluster)
        × (get32 after (o + 28) ≡ size))
added_lem n o buf name attr cluster size slot new used kept small short h g =
    let entry = new_entry name attr cluster size in
    let first = new_entry-name name attr cluster size 0 (omega arith) in
    let attribute = new_entry-attr name attr cluster size small in
    let live : IsLive entry (target_of name) = record {
      used = λ e. used (sym first ∙ e);
      kept = λ e. kept (sym first ∙ e);
      short = λ e. short (ap (λ a. bit_and a attr_lfn) (sym attribute) ∙ e);
      named = λ i lt. new_entry-name name attr cluster size i lt;
    } in
    (
      scan_entries-put_entry n 0 o buf entry (target_of name) slot new live,
      placed-cluster buf entry o ∙ new_entry-cluster name attr cluster size h,
      placed-size buf entry o ∙ new_entry-size name attr cluster size g,
    )
