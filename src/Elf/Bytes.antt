-- ===== src/Elf/Bytes.antt =====
-- Bytes in physical memory, as kernel/drivers/elf/elf.c writes them.
use deva.Prelude.{
  ℕ, zero, suc, ◌+◌, ◌-◌, ◌*◌, ◌/◌, ◌%◌, ◌^◌, ◌<◌, ◌≡◌, ◌≢◌, inl, inr, sym, ap, ◌∙◌, ◌&&◌, arith,
  ltb, leb, ◌==◌, if◌then◌else◌, Bool-cases, update,
}
use deva.Elf.{load_byte, store_byte, copy_in}

-- Byte `j` of a word whose byte `k` is written.
put_in_word :
    (w v k j : ℕ)
    → k < 4
    → j < 4
    → (w / (2 ^ (8 * k) * 2 ^ 8) * (2 ^ (8 * k) * 2 ^ 8)
          + v % 2 ^ 8 * 2 ^ (8 * k)
          + w % 2 ^ (8 * k))
        / 2 ^ (8 * j)
        % 2 ^ 8
      ≡ (if k == j then v % 2 ^ 8 else w / 2 ^ (8 * j) % 2 ^ 8)
put_in_word w v zero zero hk hj = ground arith
put_in_word w v zero (suc zero) hk hj = ground arith
put_in_word w v zero (suc (suc zero)) hk hj = ground arith
put_in_word w v zero (suc (suc (suc zero))) hk hj = ground arith
put_in_word w v (suc zero) zero hk hj = ground arith
put_in_word w v (suc zero) (suc zero) hk hj = ground arith
put_in_word w v (suc zero) (suc (suc zero)) hk hj = ground arith
put_in_word w v (suc zero) (suc (suc (suc zero))) hk hj = ground arith
put_in_word w v (suc (suc zero)) zero hk hj = ground arith
put_in_word w v (suc (suc zero)) (suc zero) hk hj = ground arith
put_in_word w v (suc (suc zero)) (suc (suc zero)) hk hj = ground arith
put_in_word w v (suc (suc zero)) (suc (suc (suc zero))) hk hj = ground arith
put_in_word w v (suc (suc (suc zero))) zero hk hj = ground arith
put_in_word w v (suc (suc (suc zero))) (suc zero) hk hj = ground arith
put_in_word w v (suc (suc (suc zero))) (suc (suc zero)) hk hj = ground arith
put_in_word w v (suc (suc (suc zero))) (suc (suc (suc zero))) hk hj = ground arith
put_in_word w v (suc (suc (suc (suc k)))) j hk hj = ground (arith, hk)
put_in_word w v zero (suc (suc (suc (suc j)))) hk hj = ground (arith, hj)
put_in_word w v (suc zero) (suc (suc (suc (suc j)))) hk hj = ground (arith, hj)
put_in_word w v (suc (suc zero)) (suc (suc (suc (suc j)))) hk hj = ground (arith, hj)
put_in_word w v (suc (suc (suc zero))) (suc (suc (suc (suc j)))) hk hj = ground (arith, hj)

load_byte-store_byte :
    (mem : ℕ → ℕ) (a v b : ℕ)
    → load_byte (store_byte mem a v) b ≡ (if a == b then v % 2 ^ 8 else load_byte mem b)
unfolding load_byte store_byte
load_byte-store_byte mem a v b =
    let p = a - a % 4 in
    let q = b - b % 4 in
    let w = mem p in
    let low = 2 ^ (8 * (a % 4)) in
    let w' = w / (low * 2 ^ 8) * (low * 2 ^ 8) + v % 2 ^ 8 * low + w % low in
    elim (Bool-cases (p == q)) [
      | inl e ↦
          let same : p ≡ q = ground (arith, e) in
          let now : update mem p w' q ≡ w' = ground (arith, e) in
          let old : mem q ≡ w = ap mem (sym same) in
          let half : update mem p w' q / 2 ^ (8 * (b % 4)) % 2 ^ 8
              ≡ (if a % 4 == b % 4 then v % 2 ^ 8 else w / 2 ^ (8 * (b % 4)) % 2 ^ 8) =
            ap (λ (x : ℕ). x / 2 ^ (8 * (b % 4)) % 2 ^ 8) now
            ∙ put_in_word w v (a % 4) (b % 4) (omega arith) (omega arith) in
          let kept : mem q / 2 ^ (8 * (b % 4)) % 2 ^ 8 ≡ w / 2 ^ (8 * (b % 4)) % 2 ^ 8 =
            ap (λ (x : ℕ). x / 2 ^ (8 * (b % 4)) % 2 ^ 8) old in
          half ∙ ground (arith, kept, same)
      | inr ne ↦
          let apart : a ≢ b = λ x. ground (arith, ne, ap (λ (z : ℕ). z - z % 4) x) in
          let now : update mem p w' q ≡ mem q = ground (arith, ne) in
          ap (λ (x : ℕ). x / 2 ^ (8 * (b % 4)) % 2 ^ 8) now ∙ ground (arith, apart)
    ]

pub load_byte-copy_in :
    (file : ℕ → ℕ) (src dst n : ℕ) (mem : ℕ → ℕ) (b : ℕ)
    → load_byte (copy_in file src dst n mem) b
      ≡ (if leb dst b && ltb b (dst + n) then file (src + (b - dst)) % 2 ^ 8 else load_byte mem b)
unfolding copy_in
load_byte-copy_in file src dst zero mem b = ground arith
load_byte-copy_in file src dst (suc n) mem b =
    let ih = load_byte-copy_in file (src + 1) (dst + 1) n (store_byte mem dst (file src)) b in
    let one = load_byte-store_byte mem dst (file src) b in
    let here : dst ≡ b → file src ≡ file (src + (b - dst)) = λ e. ap file (omega (arith, e)) in
    let later : dst < b → file (src + 1 + (b - (dst + 1))) ≡ file (src + (b - dst)) =
      λ l. ap file (omega (arith, l)) in
    ih ∙ ground (arith, one, here, later)
