-- ===== src/Backup/Sizes/Powers.antt =====
-- src/backup.cc, findNumTarsFromSize and calculateNumTars: how many tars they answer, and that they
-- do.
use beak.Prelude.{
  ℕ, zero, suc, ◌+◌, ◌*◌, ◌/◌, ◌^◌, ◌≤◌, ◌<◌, ◌≡◌, refl, some, List, [], ◌∷◌, arith, ltb, leb, inl,
  inr, ◌⊎◌, ◌||◌, Bool-cases, ap, subst, ◌∙◌,
}
use beak.Prelude.Words.{u64_mod, mul64_exact, add64_exact, sub64_exact}
use beak.Backup.Sizes.{
  find_loop, find_num_tars_from_size, FileSizes, no_sizes, add_size, sum_sizes, NumTars,
  choose_num_tars, calculate_num_tars,
}

abbrev pub doubled : ℕ → ℕ → ℕ
doubled zero n = n
doubled (suc k) n = doubled k (n * 2)

doubled-mul : (k a b : ℕ) → doubled k (a * b) ≡ doubled k a * b
doubled-mul zero a b = refl
doubled-mul (suc k) a b =
    let same : a * b * 2 ≡ a * 2 * b = grind arith in rw same (doubled-mul k (a * 2) b)

find_loop_lem :
    (fuel amount total n : ℕ)
    → 0 < n
    → n ≤ amount
    → total ≤ 2 ^ 63
    → total ≤ doubled fuel amount
    → (k : ℕ) × (find_loop fuel amount total n ≡ some (doubled k n))
      × (total ≤ doubled k amount)
      × ((k ≡ 0) ⊎ (doubled k amount < 2 * total))
unfolding find_loop
find_loop_lem zero amount total n a b c d = (0, ground arith, d, inl refl)
find_loop_lem (suc fuel) amount total n a b c d = elim (Bool-cases (ltb amount total)) [
  | inl more ↦
      let (k, run, enough, least) =
        find_loop_lem fuel (amount * 2) total (n * 2) (omega arith) (omega arith) c d in
      (
        suc k,
        rw (more, mul64_exact amount 2 (ground arith), mul64_exact n 2 (ground arith)) run,
        enough,
        inr (elim least [
          | inl once ↦
              let twice : doubled k (amount * 2) ≡ amount * 2 = rw once refl in ground arith
          | inr below ↦ below
        ]),
      )
  | inr less ↦ (0, rw less refl, ground arith, inl refl)
]

-- The least power of two of tar files of so many bytes that hold a size of at most 2^63 bytes.
abbrev pub IsLeast : ℕ → ℕ → ℕ → Type 0
IsLeast amount total n =
    (k : ℕ) × (n ≡ doubled k 1) × (total ≤ n * amount) × ((k ≡ 0) ⊎ (n * amount < 2 * total))

doubled-ge : (k n : ℕ) → n ≤ doubled k n
doubled-ge zero n = omega arith
doubled-ge (suc k) n = omega (arith, doubled-ge k (n * 2))

doubled_enough : (total amount : ℕ) → 0 < amount → total ≤ 2 ^ 63 → total ≤ doubled 64 amount
doubled_enough total amount a b = omega arith

-- For a size of at most 2^63 bytes and tar files of some size, the search for the number of tar
-- files ends, with the least power of two that holds the size.
pub find_num_tars_from_size-IsLeast :
    (amount total : ℕ)
    → 0 < amount
    → total ≤ 2 ^ 63
    → (n : ℕ) × (find_num_tars_from_size amount total ≡ some n) × IsLeast amount total n
unfolding find_num_tars_from_size
find_num_tars_from_size-IsLeast amount total a b =
    let (k, run, enough, least) =
      find_loop_lem 64 amount total 1 (omega arith) a b (doubled_enough total amount a b) in
    let product : doubled k amount ≡ doubled k 1 * amount =
      ap (doubled k) (omega arith) ∙ doubled-mul k 1 amount in
    (doubled k 1, run, (k, refl, omega arith, ground arith))

abbrev pub sum : List ℕ → ℕ
sum [] = 0
sum (n ∷ l) = n + sum l

abbrev total_of : FileSizes → ℕ
total_of s = s.small_files_size + s.medium_files_size + s.large_files_size

total_of-add_size :
    (small medium : ℕ) (s : FileSizes) (n : ℕ)
    → total_of s + n < u64_mod
    → total_of (add_size small medium s n) ≡ total_of s + n
unfolding add_size
total_of-add_size small medium s n h = elim (Bool-cases (ltb n small)) [
  | inl e ↦ rw (e, add64_exact s.small_files_size n (omega arith)) (omega arith)
  | inr e ↦ elim (Bool-cases (ltb n medium)) [
    | inl f ↦ rw (e, f, add64_exact s.medium_files_size n (omega arith)) (omega arith)
    | inr f ↦ rw (e, f, add64_exact s.large_files_size n (omega arith)) (omega arith)
  ]
]

total_of-sum_sizes :
    (small medium : ℕ) (s : FileSizes) (sizes : List ℕ)
    → total_of s + sum sizes < u64_mod
    → total_of (sum_sizes small medium s sizes) ≡ total_of s + sum sizes
unfolding sum_sizes
total_of-sum_sizes small medium s [] h = omega arith
total_of-sum_sizes small medium s (n ∷ l) h =
    let added = total_of-add_size small medium s n (omega arith) in
    total_of-sum_sizes small medium (add_size small medium s n) l (omega (arith, added))
    ∙ omega (arith, added)

-- What the grouping relies on: no file is sent to a tar that is not there.
pub record IsPlan (target total : ℕ) (r : NumTars) : Type 0 where
  pub some_small : 0 < r.nst
  pub ordered : r.sc ≤ r.mc
  pub some_medium : (0 < r.nmt) ⊎ (r.sc ≡ r.mc)
  pub all_counted : r.sfs + r.mfs + r.lfs ≡ total
  pub largest : r.mc ≡ target

IsLeast-bounds :
    (amount total n : ℕ) → 0 < amount → IsLeast amount total n → (0 < n) × (n ≤ 2 * total + 1)
IsLeast-bounds amount total n h (k, e, enough, least) =
    let more : n ≤ n * amount = grind arith in
    (
      omega (arith, doubled-ge k 1),
      elim least [
        | inl once ↦ let one : n ≡ 1 = e ∙ rw once refl in omega arith
        | inr below ↦ omega arith
      ],
    )

choose_num_tars-IsPlan :
    (target nst nmt : ℕ) (s : FileSizes)
    → IsLeast target s.small_files_size nst
    → IsLeast target s.medium_files_size nmt
    → 0 < target
    → total_of s ≤ 2 ^ 62
    → IsPlan target (total_of s) (choose_num_tars target s nst nmt)
unfolding choose_num_tars
choose_num_tars-IsPlan target nst nmt s least_small least_medium h l =
    let (some_small, few_small) = IsLeast-bounds target s.small_files_size nst h least_small in
    let (some_medium, few_medium) = IsLeast-bounds target s.medium_files_size nmt h least_medium in
    elim (Bool-cases (leb s.small_files_size target || leb s.medium_files_size target)) [
      | inl e ↦
          rw
            (
              e,
              add64_exact nst nmt (omega arith),
              sub64_exact (nst + nmt) 1 (omega arith) (omega arith),
              add64_exact s.small_files_size s.medium_files_size (omega arith),
            )
            (record {
              some_small = omega arith;
              ordered = omega arith;
              some_medium = inr refl;
              all_counted = omega arith;
              largest = refl;
            })
      | inr e ↦ rw e (record {
        some_small = some_small;
        ordered = omega arith;
        some_medium = inl some_medium;
        all_counted = refl;
        largest = refl;
      })
    ]

-- For tar files of some size and files of at most 2^62 bytes together, calculateNumTars ends and
-- counts every byte once. There is a small tar, and a medium one unless no size counts as medium.
pub calculate_num_tars-IsPlan :
    (target : ℕ) (sizes : List ℕ)
    → 0 < target
    → sum sizes ≤ 2 ^ 62
    → (r : NumTars) × (calculate_num_tars target sizes ≡ some r) × IsPlan target (sum sizes) r
unfolding calculate_num_tars
calculate_num_tars-IsPlan target sizes h l =
    let s = sum_sizes (target / 100) target no_sizes sizes in
    let total : total_of s ≡ sum sizes =
      total_of-sum_sizes (target / 100) target no_sizes sizes (omega arith) ∙ omega arith in
    let (nst, run_small, least_small) =
      find_num_tars_from_size-IsLeast target s.small_files_size h (omega arith) in
    let (nmt, run_medium, least_medium) =
      find_num_tars_from_size-IsLeast target s.medium_files_size h (omega arith) in
    (
      choose_num_tars target s nst nmt,
      rw (run_small, run_medium) refl,
      subst (λ (n : ℕ). IsPlan target n (choose_num_tars target s nst nmt)) total
          (choose_num_tars-IsPlan target nst nmt s least_small least_medium h (omega arith)),
    )
