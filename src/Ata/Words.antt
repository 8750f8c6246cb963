-- ===== src/Ata/Words.antt =====
-- The words of a sector, as kernel/drivers/ata/ata.c moves them through the data port.
use deva.Prelude.{
  ℕ, zero, suc, ◌+◌, ◌*◌, ◌/◌, ◌%◌, ◌^◌, ◌<◌, ◌≡◌, Bool, not, inl, inr, refl, ap, ◌∙◌, true, false,
  ◌&&◌, arith, ltb, leb, ◌==◌, if◌then◌else◌, Bool-cases, update,
}
use deva.Ata.{Bus, reg_data, word_at, put_word, read_words, write_words}
use deva.Ata.Disk.{
  Transfer, idle, reading, writing, Drive, total_words, next_word, lba_of, word_of, taken, given,
  IsDrive,
}

-- Byte `j` of a sector.
abbrev pub byte_of : (ℕ → ℕ) → ℕ → ℕ
byte_of words j = if j % 2 == 0 then words (j / 2) % 2 ^ 8 else words (j / 2) / 2 ^ 8

put_word_lem :
    (buf words : ℕ → ℕ) (i j : ℕ)
    → put_word buf i (words i) j ≡ (if j / 2 == i then byte_of words j else buf j)
put_word_lem buf words i j = elim (Bool-cases (j / 2 == i)) [
  | inl e ↦ let here : j / 2 ≡ i = ground (arith, e) in rw (e, here) (ground (arith, here))
  | inr ne ↦ ground (arith, ne)
]

written_word :
    (f : ℕ → ℕ → ℕ) (a i w m j : ℕ)
    → update f a (update (f a) i w) m j ≡ (if a == m && i == j then w else f m j)
written_word f a i w m j = elim (Bool-cases (a == m)) [
  | inl e ↦ let here : a ≡ m = ground (arith, e) in rw here (ground arith)
  | inr ne ↦ ground (arith, ne)
]

same_word : (buf : ℕ → ℕ) (i j : ℕ) → i ≡ j → word_at buf i ≡ word_at buf j
same_word buf i j e = ap (word_at buf) e

-- One word of a transfer of one sector.
word_of_lem :
    (v : Drive) (i : ℕ)
    → i < 256
    → word_of (record v { transfer = reading i }) ≡ v.content (lba_of v) i
word_of_lem v i lt =
    let n : lba_of v + i / 256 ≡ lba_of v = omega (arith, lt) in
    let m : i % 256 ≡ i = omega (arith, lt) in
    ap (λ a. v.content a (i % 256)) n ∙ ap (v.content (lba_of v)) m

total_lem : (v : Drive) → v.seccount ≡ 1 → total_words v ≡ 256
total_lem v one = rw one refl

next_word_lem :
    (v : Drive) (transfer : ℕ → Transfer) (i : ℕ)
    → v.seccount ≡ 1
    → next_word v transfer i ≡ (if i == 255 then idle else transfer (i + 1))
next_word_lem v transfer i one =
    let e : (i + 1 == 256) ≡ (i == 255) = ground arith in
    ap (λ (n : ℕ). if i + 1 == n then idle else transfer (i + 1)) (total_lem v one)
    ∙ ap (λ (b : Bool). if b then idle else transfer (i + 1)) e

taken_lem :
    (latency : ℕ) (v : Drive) (i : ℕ)
    → v.seccount ≡ 1
    → i < 256
    → taken latency (record v { transfer = reading i })
      ≡ record v { transfer = if i == 255 then idle else reading (i + 1) }
taken_lem latency v i one lt =
    let put = λ (t : Transfer) (b : Bool).
      let r : Drive = record v { transfer = t; busy = if b then latency else v.busy } in r in
    let never : (i % 256 == 255 && not (i + 1 == 256)) ≡ false = ground (arith, lt) in
    let quiet : (i % 256 == 255 && not (i + 1 == total_words v)) ≡ false =
      ap (λ (n : ℕ). i % 256 == 255 && not (i + 1 == n)) (total_lem v one) ∙ never in
    ap (λ t. put t (i % 256 == 255 && not (i + 1 == total_words v))) (next_word_lem v reading i one)
    ∙ ap (put (if i == 255 then idle else reading (i + 1))) quiet

given_lem :
    (latency w : ℕ) (v : Drive) (i : ℕ)
    → v.seccount ≡ 1
    → i < 256
    → given latency w (record v { transfer = writing i }) ≡ record v {
      transfer = if i == 255 then idle else writing (i + 1);
      busy = if i == 255 then latency else v.busy;
      content = update v.content (lba_of v) (update (v.content (lba_of v)) i w);
    }
given_lem latency w v i one lt =
    let put = λ (t : Transfer) (b : Bool) (a j : ℕ).
      let r : Drive = record v {
        transfer = t;
        busy = if b then latency else v.busy;
        content = update v.content a (update (v.content a) j w);
      } in
      r in
    let n : lba_of v + i / 256 ≡ lba_of v = omega (arith, lt) in
    let m : i % 256 ≡ i = omega (arith, lt) in
    let next = if i == 255 then idle else writing (i + 1) in
    ap (λ t. put t (i % 256 == 255) (lba_of v + i / 256) (i % 256)) (next_word_lem v writing i one)
    ∙ ap (λ a. put next (i % 256 == 255) a (i % 256)) n
    ∙ ap (λ j. put next (j == 255) (lba_of v) j) m

module _ {D : Type 0} {bus : Bus D} {io latency : ℕ} (k : IsDrive bus io latency) where
  pub read_words_lem :
      (n i : ℕ) (buf : ℕ → ℕ) (d : D) (v : Drive)
      → v.seccount ≡ 1
      → k.view d ≡ record v { transfer = reading i }
      → i + suc n ≡ 256
      → ((j : ℕ)
          → (read_words bus io i (suc n) buf d).0 j
            ≡ (if leb (2 * i) j && ltb j 512 then byte_of (v.content (lba_of v)) j else buf j))
        × (k.view (read_words bus io i (suc n) buf d).1 ≡ record v { transfer = idle })
  unfolding read_words
  read_words_lem zero i buf d v one e last =
      let w : (bus.inw (io + reg_data) d).0 ≡ v.content (lba_of v) i =
        k.inw-view d ∙ ap word_of e ∙ word_of_lem v i (omega (arith, last)) in
      let at_end : (i == 255) ≡ true = ground (arith, last) in
      (
        λ j. rw w (put_word_lem buf (v.content (lba_of v)) i j ∙ ground (arith, last)),
        k.inw-next d
            ∙ ap (taken latency) e
            ∙ taken_lem latency v i one (omega (arith, last))
            ∙ ap (λ (b : Bool). record v { transfer = if b then idle else reading (i + 1) }) at_end,
      )
  read_words_lem (suc n) i buf d v one e last =
      let d1 = (bus.inw (io + reg_data) d).1 in
      let w : (bus.inw (io + reg_data) d).0 ≡ v.content (lba_of v) i =
        k.inw-view d ∙ ap word_of e ∙ word_of_lem v i (omega (arith, last)) in
      let before : (i == 255) ≡ false = ground (arith, last) in
      let next : k.view d1 ≡ record v { transfer = reading (i + 1) } =
        k.inw-next d
        ∙ ap (taken latency) e
        ∙ taken_lem latency v i one (omega (arith, last))
        ∙ ap (λ (b : Bool). record v { transfer = if b then idle else reading (i + 1) }) before in
      let ih =
        read_words_lem n (i + 1) (put_word buf i (bus.inw (io + reg_data) d).0) d1 v one next
          (omega (arith, last)) in
      (λ j. ih.0 j ∙ rw w (ground (arith, put_word_lem buf (v.content (lba_of v)) i j, last)), ih.1)

  one_word :
      (i : ℕ) (buf : ℕ → ℕ) (d : D)
      → (k.view d).transfer ≡ writing i
      → (k.view d).seccount ≡ 1
      → i < 256
      → (b : Bool) → (i == 255) ≡ b
      → k.view (bus.outw (io + reg_data) (word_at buf i) d) ≡ (
          let v = k.view d in
          record v {
            transfer = if b then idle else writing (i + 1);
            busy = if b then latency else v.busy;
            content = update v.content (lba_of v) (update (v.content (lba_of v)) i (word_at buf i));
          })
  one_word i buf d e one lt b at =
      let v = k.view d in
      k.outw-view d (word_at buf i) (omega arith)
      ∙ ap (λ t. given latency (word_at buf i) (record v { transfer = t })) e
      ∙ given_lem latency (word_at buf i) v i one lt
      ∙ ap
          (λ (b : Bool).
            let r : Drive = record v {
              transfer = if b then idle else writing (i + 1);
              busy = if b then latency else v.busy;
              content =
                  update v.content (lba_of v) (update (v.content (lba_of v)) i (word_at buf i));
            } in
            r)
          at

  -- The words of a buffer go into the sector from word `i` on.
  pub write_words_lem :
      (n i : ℕ) (buf : ℕ → ℕ) (d : D)
      → (k.view d).transfer ≡ writing i
      → (k.view d).seccount ≡ 1
      → i + suc n ≡ 256
      → (k.view (write_words bus io i (suc n) buf d)).transfer ≡ idle
        × ((k.view (write_words bus io i (suc n) buf d)).busy ≡ latency)
        × ((m j : ℕ)
            → (k.view (write_words bus io i (suc n) buf d)).content m j ≡ (
                if lba_of (k.view d) == m && leb i j && ltb j 256
                then word_at buf j
                else (k.view d).content m j))
        × ((k.view (write_words bus io i (suc n) buf d)).select ≡ (k.view d).select)
        × ((k.view (write_words bus io i (suc n) buf d)).unit ≡ (k.view d).unit)
  unfolding write_words
  write_words_lem zero i buf d e one last =
      let at_end : (i == 255) ≡ true = ground (arith, last) in
      let now = one_word i buf d e one (omega (arith, last)) true at_end in
      (
        ap (λ (v : Drive). v.transfer) now,
        ap (λ (v : Drive). v.busy) now,
        λ m j.
            ap (λ (v : Drive). v.content m j) now
            ∙ written_word (k.view d).content (lba_of (k.view d)) i (word_at buf i) m j
            ∙ ground (arith, last, same_word buf i j),
        ap (λ (v : Drive). v.select) now,
        ap (λ (v : Drive). v.unit) now,
      )
  write_words_lem (suc n) i buf d e one last =
      let d1 = bus.outw (io + reg_data) (word_at buf i) d in
      let before : (i == 255) ≡ false = ground (arith, last) in
      let now = one_word i buf d e one (omega (arith, last)) false before in
      let ih =
        write_words_lem n (i + 1) buf d1 (ap (λ (v : Drive). v.transfer) now)
          (ap (λ (v : Drive). v.seccount) now ∙ one) (omega (arith, last)) in
      let at : lba_of (k.view d1) ≡ lba_of (k.view d) = ap lba_of now in
      (
        ih.0,
        ih.1,
        λ m j.
            let here =
              ap (λ (v : Drive). v.content m j) now
              ∙ written_word (k.view d).content (lba_of (k.view d)) i (word_at buf i) m j in
            ih.2 m j ∙ rw at (ground (arith, here, last, same_word buf i j)),
        ih.3 ∙ ap (λ (v : Drive). v.select) now,
        ih.4 ∙ ap (λ (v : Drive). v.unit) now,
      )
