-- ===== src/Interrupts/Masks.antt =====
-- Which interrupt lines the controllers pass on (kernel/i386/pic_8259a.cpp).
use tysos_cxx.Prelude.{
  ℕ, ◌-◌, ◌^◌, ◌<◌, ◌≡◌, ◌≢◌, ◌⊎◌, refl, sym, ap, ◌∙◌, Bool, true, not, ◌&&◌, bit_and, ltb, leb,
  ◌==◌, if◌then◌else◌, test_bit, inl, inr, Bool-cases, arith, subst,
}
use tysos_cxx.Prelude.Bits.{test_bit-bit_and, bit_and_le, all_below, all_below_lem}
use tysos_cxx.Interrupts.{
  Ports, master_command, master_data, slave_command, slave_data, eoi, not_bit, unmask_line, unmask,
  end_interrupt,
}

-- What an initialised pair of controllers does at its ports: a data port reads and writes the mask,
-- and the end of an interrupt leaves the masks.
pub record PicLaws {S : Type 0} (ports : Ports S) (Ready : S → Type 0) (mask : (port : ℕ) → S → ℕ)
    : Type 0 where
  pub reads : (p : ℕ) (s : S) → Ready s → ports.inb p s ≡ (mask p s, s)
  pub writes :
      (p w : ℕ) (s : S)
      → (p ≡ master_data) ⊎ (p ≡ slave_data)
      → Ready s
      → w < 2 ^ 8
      → Ready (ports.out p w s)
        × (mask p (ports.out p w s) ≡ w)
        × ((q : ℕ) → q ≢ p → mask q (ports.out p w s) ≡ mask q s)
  pub ends :
      (p : ℕ) (s : S)
      → (p ≡ master_command) ⊎ (p ≡ slave_command)
      → Ready s
      → Ready (ports.out p eoi s) × ((q : ℕ) → mask q (ports.out p eoi s) ≡ mask q s)

not_bit-bits : (k j : ℕ) → k < 8 → j < 8 → test_bit (not_bit k) j ≡ not (j == k)
unfolding not_bit
not_bit-bits k j kl jl = same (test_bit (not_bit k) j) (not (j == k)) (
    all_below_lem 8 (λ j. agree (test_bit (not_bit k) j) (not (j == k)))
      (all_below_lem 8 (λ k. all_below 8 (λ j. agree (test_bit (not_bit k) j) (not (j == k)))) refl
        k kl)
      j jl)
  where
    agree : Bool → Bool → Bool
    agree a b = if a then b else not b

    same : (a b : Bool) → agree a b ≡ true → a ≡ b
    same a b e = ground arith

-- Whether a line's bit is set in the mask of its controller.
abbrev pub masked : {S : Type 0} → (mask : (port : ℕ) → S → ℕ) → (line : ℕ) → S → Bool
masked mask line s =
    if ltb line 8
    then test_bit (mask master_data s) line
    else test_bit (mask slave_data s) (line - 8)

not_bit-lt : (k : ℕ) → not_bit k < 2 ^ 8
unfolding not_bit
not_bit-lt k = omega arith

module _ {S : Type 0} (ports : Ports S) (Ready : S → Type 0) (mask : (port : ℕ) → S → ℕ)
    (laws : PicLaws ports Ready mask) where
  unmask_line_lem :
      (p k : ℕ) (s : S)
      → (p ≡ master_data) ⊎ (p ≡ slave_data)
      → k < 8
      → Ready s
      → Ready (unmask_line ports p k s)
        × ((j : ℕ)
            → j < 8
            → test_bit (mask p (unmask_line ports p k s)) j
              ≡ (test_bit (mask p s) j && not (j == k)))
        × ((q : ℕ) → q ≢ p → mask q (unmask_line ports p k s) ≡ mask q s)
  unfolding unmask_line
  unmask_line_lem p k s at_data kl ready =
      let w = bit_and (mask p s) (not_bit k) in
      let small : w < 2 ^ 8 =
        let l = bit_and_le (mask p s) (not_bit k) in let m = not_bit-lt k in omega arith in
      let (ready', wrote, others) = laws.writes p w s at_data ready small in
      let run : unmask_line ports p k s ≡ ports.out p w s =
        ap (λ g. ports.out p (bit_and g.0 (not_bit k)) g.1) (laws.reads p s ready) in
      (
        subst Ready (sym run) ready',
        λ j jl.
            ap (λ t. test_bit (mask p t) j) run
            ∙ ap (λ m. test_bit m j) wrote
            ∙ test_bit-bit_and (mask p s) (not_bit k) j
            ∙ ap (λ b. test_bit (mask p s) j && b) (not_bit-bits k j kl jl),
        λ q ne. ap (mask q) run ∙ others q ne,
      )

  -- _enable on controllers whose data ports read and write their masks, for an irq below 16: it
  -- clears the mask bit of the irq and, for an irq of the slave, the bit of line 2, to which the
  -- slave is connected; the bit of every other line stays as it is.
  pub unmask-masked :
      (irq line : ℕ) (s : S)
      → Ready s
      → irq < 16
      → line < 16
      → Ready (unmask ports irq s)
        × (masked mask line (unmask ports irq s)
            ≡ (masked mask line s && not (line == irq) && not (leb 8 irq && line == 2)))
  unfolding unmask
  unmask-masked irq line s ready il ll = elim (Bool-cases (ltb irq 8)) [
    | inl low ↦
        let (r, bits, others) = unmask_line_lem master_data irq s (inl refl) (ground arith) ready in
        (
          rw low r,
          elim (Bool-cases (ltb line 8)) [
            | inl line_low ↦ (let b = bits line (ground arith) in ground arith)
            | inr line_high ↦ (let o = others slave_data (omega arith) in ground arith)
          ],
        )
    | inr high ↦
        let (r1, bits1, others1) = unmask_line_lem master_data 2 s (inl refl) (omega arith) ready in
        let s1 = unmask_line ports master_data 2 s in
        let (r2, bits2, others2) =
          unmask_line_lem slave_data (irq - 8) s1 (inr refl) (ground arith) r1 in
        (
          rw high r2,
          elim (Bool-cases (ltb line 8)) [
            | inl line_low ↦
                (let b = bits1 line (ground arith) in
                  let o = others2 master_data (omega arith) in ground arith)
            | inr line_high ↦
                (let b = bits2 (line - 8) (ground arith) in
                  let o = others1 slave_data (omega arith) in ground arith)
          ],
        )
  ]

  -- EndInterrupt leaves the masks.
  pub end_interrupt-mask :
      (irq q : ℕ) (s : S)
      → Ready s
      → Ready (end_interrupt ports irq s) × (mask q (end_interrupt ports irq s) ≡ mask q s)
  unfolding end_interrupt
  end_interrupt-mask irq q s ready = elim (Bool-cases (leb 8 irq)) [
    | inl high ↦
        let (r1, m1) = laws.ends master_command s (inl refl) ready in
        let (r2, m2) = laws.ends slave_command (ports.out master_command eoi s) (inr refl) r1 in
        (rw high r2, rw high (m2 q ∙ m1 q))
    | inr low ↦
        let (r1, m1) = laws.ends master_command s (inl refl) ready in (rw low r1, rw low (m1 q))
  ]
