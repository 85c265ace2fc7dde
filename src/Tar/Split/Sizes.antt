-- ===== src/Tar/Split/Sizes.antt =====
-- src/tarfile.cc, splitParts_: the sizes of the parts add up to the size of the tar file.
use beak.Prelude.{
  ℕ, zero, suc, ◌+◌, ◌-◌, ◌*◌, ◌/◌, ◌≤◌, ◌<◌, ◌≡◌, refl, some, arith, ◌==◌, inl, inr, Bool-cases,
  ==_iff, ==_refl, lt→ltb,
}
use beak.Prelude.Words.{
  u64_mod, u32_mod, add64, sub64, mul64, u32, sub32, add64_exact, sub64_exact, mul64_exact,
  u32_exact, sub32_exact,
}
use beak.Tar.Split.{TarHeaderStyle, Parts, header_size, split_parts, finish_split}

-- The parts hold `total` bytes: the first one `p`, each later one its size less its header.
pub record IsSplit (total p h : ℕ) (s : Parts) : Type 0 where
  pub same_part_size : s.part_size ≡ p
  pub same_header : s.part_header_size ≡ h
  pub several : 2 ≤ s.num_parts
  pub count_fits : s.num_parts < u32_mod
  pub last_holds_data : h < s.last_part_size
  pub last_fits : s.last_part_size ≤ p
  pub conserved : p + (s.num_parts - 2) * (p - h) + (s.last_part_size - h) ≡ total

abbrev pub quotient : ℕ → ℕ → ℕ → ℕ
quotient total p h = (total - h) / (p - h)

quotient_bounds :
    (total p h : ℕ)
    → h < p
    → p < total
    → (1 ≤ quotient total p h)
      × (quotient total p h * (p - h) + h ≤ total)
      × (total < quotient total p h * (p - h) + p)
quotient_bounds total p h a b = grind arith

-- The products below, with the quotient one or two larger.
step_product : (q d : ℕ) → 1 ≤ q → d + (q - 1) * d ≡ q * d
step_product zero d h = elim h [ ]
step_product (suc k) d h = let e : suc k - 1 ≡ k = omega arith in rw e (omega arith)

-- The number of full parts, computed in machine words.
count_exact :
    (total p h : ℕ)
    → h < p
    → p < total
    → total < u64_mod
    → quotient total p h < u32_mod
    → u32 (sub64 total h / sub64 p h) ≡ quotient total p h
count_exact total p h a b c d =
    rw (sub64_exact total h (omega arith) c, sub64_exact p h (omega arith) (omega arith))
      (u32_exact _ d)

-- What those parts store.
stores_exact :
    (total p h q : ℕ)
    → h < p
    → p < total
    → total < u64_mod
    → 1 ≤ q
    → q < u32_mod
    → q * (p - h) + h ≤ total
    → add64 p (mul64 (sub32 q 1) (sub64 p h)) ≡ q * (p - h) + h
stores_exact total p h q a b c e f g =
    let product : p - h + (q - 1) * (p - h) ≡ q * (p - h) = step_product q (p - h) e in
    rw
      (
        sub32_exact q 1 e f,
        sub64_exact p h (omega arith) (omega arith),
        mul64_exact (q - 1) (p - h) (omega arith),
        add64_exact p ((q - 1) * (p - h)) (omega arith),
      )
      (omega arith)

even-IsSplit :
    (total p h q : ℕ)
    → h < p
    → p < total
    → q * (p - h) + h ≡ total
    → q < u32_mod
    → IsSplit total p h
        (record { num_parts = q; part_size = p; last_part_size = p; part_header_size = h })
even-IsSplit total p h zero a b e f = absurd (omega arith)
even-IsSplit total p h (suc zero) a b e f = absurd (omega arith)
even-IsSplit total p h (suc (suc k)) a b e f =
    let fewer : suc (suc k) - 2 ≡ k = omega arith in
    record {
      same_part_size = refl;
      same_header = refl;
      several = omega arith;
      count_fits = f;
      last_holds_data = a;
      last_fits = omega arith;
      conserved = rw fewer (omega arith);
    }

extra-IsSplit :
    (total p h q : ℕ)
    → h < p
    → 1 ≤ q
    → q * (p - h) + h < total
    → total < q * (p - h) + p
    → q + 1 < u32_mod
    → IsSplit total p h (record {
      num_parts = q + 1;
      part_size = p;
      last_part_size = h + total - (q * (p - h) + h);
      part_header_size = h;
    })
extra-IsSplit total p h q a b c d e =
    let product : p - h + (q - 1) * (p - h) ≡ q * (p - h) = step_product q (p - h) b in
    let fewer : q + 1 - 2 ≡ q - 1 = omega arith in
    record {
      same_part_size = refl;
      same_header = refl;
      several = omega arith;
      count_fits = e;
      last_holds_data = omega arith;
      last_fits = omega arith;
      conserved = rw fewer (omega arith);
    }

-- The size of the last part, and the value that the assertion compares it with.
last_exact :
    (total h stores : ℕ)
    → h + total < u64_mod
    → stores ≤ total
    → sub64 (add64 h total) stores ≡ h + total - stores
last_exact total h stores a b = rw (add64_exact h total a) (sub64_exact _ stores (omega arith) a)

asserted_exact :
    (total p h q : ℕ)
    → h < p
    → p < total
    → h + total < u64_mod
    → 1 ≤ q
    → q + 1 < u32_mod
    → q * (p - h) + h ≤ total
    → add64 (sub64 (sub64 total p) (mul64 (sub32 (u32 (q + 1)) 2) (sub64 p h))) h
      ≡ h + total - (q * (p - h) + h)
asserted_exact total p h q a b c d e f =
    let product : p - h + (q - 1) * (p - h) ≡ q * (p - h) = step_product q (p - h) d in
    let fewer : q + 1 - 2 ≡ q - 1 = omega arith in
    rw
      (
        u32_exact (q + 1) e,
        sub32_exact (q + 1) 2 (omega arith) e,
        fewer,
        sub64_exact p h (omega arith) (omega arith),
        mul64_exact (q - 1) (p - h) (omega arith),
        sub64_exact total p (omega arith) (omega arith),
        sub64_exact (total - p) ((q - 1) * (p - h)) (omega arith) (omega arith),
        add64_exact (total - p - (q - 1) * (p - h)) h (omega arith),
      )
      (omega arith)

-- Both outcomes of the final comparison keep the sizes.
finish_split-IsSplit :
    (total p h q : ℕ)
    → h < p
    → p < total
    → h + total < u64_mod
    → 1 ≤ q
    → q + 1 < u32_mod
    → q * (p - h) + h ≤ total
    → total < q * (p - h) + p
    → (s : Parts) × (finish_split total p h q (q * (p - h) + h) ≡ some s) × IsSplit total p h s
unfolding finish_split
finish_split-IsSplit total p h q a b c d e f g = elim (Bool-cases (q * (p - h) + h == total)) [
  | inl even ↦ (
    record { num_parts = q; part_size = p; last_part_size = p; part_header_size = h },
    rw even,
    even-IsSplit total p h q a b ((==_iff _ _).0 even) (omega arith),
  )
  | inr extra ↦ (
    record {
      num_parts = q + 1;
      part_size = p;
      last_part_size = h + total - (q * (p - h) + h);
      part_header_size = h;
    },
    rw (
      extra,
      last_exact total h (q * (p - h) + h) c f,
      asserted_exact total p h q a b c d e f,
      ==_refl (h + total - (q * (p - h) + h)),
      u32_exact (q + 1) e,
    ),
    extra-IsSplit total p h q a d (ground arith) g e,
  )
]

-- Whenever the tar file is larger than the part size, the part size leaves room for data beside
-- its header, the sizes stay below 2^64 and the count of parts below 2^32, splitParts_ passes its
-- assertions, and its parts (two at least, the last one not empty and no longer than the others)
-- hold exactly the bytes of the tar file.
pub split_parts-IsSplit :
    (total split_size : ℕ) (ths : TarHeaderStyle)
    → header_size ths < split_size
    → split_size < total
    → header_size ths + total < u64_mod
    → quotient total split_size (header_size ths) + 1 < u32_mod
    → (s : Parts) × (split_parts total split_size ths ≡ some s)
      × IsSplit total split_size (header_size ths) s
unfolding split_parts
split_parts-IsSplit total p ths a b c d =
    let h = header_size ths in
    let q = quotient total p h in
    let (one, below, above) = quotient_bounds total p h a b in
    let (s, run, split) = finish_split-IsSplit total p h q a b c one d below above in
    (
      s,
      rw
          (
            lt→ltb h p a,
            count_exact total p h a b (omega arith) (omega arith),
            stores_exact total p h q a b (omega arith) one (omega arith) below,
          )
          run,
      split,
    )
