-- ===== src/Config/Keeps/RoundTrip.antt =====
-- src/configuration.cc: a keep rule is read back from what Keep::str prints.
use beak.Prelude.{
  ℕ, suc, ◌≤◌, ◌<◌, ◌≡◌, ◌⊎◌, refl, ap, sym, ◌∙◌, false, some, [], ◌∷◌, ◌++◌, inl, inr, arith, ◌==◌,
  if◌then◌else◌, Bytes, codes, length, Bool-cases,
}
use beak.Text.Lengths.{get_length_of_time}
use beak.FileSystem.Paths.{drop_back}
use beak.Prune.{Keep}
use beak.Config.Keeps.{no_keep, parse_keep, key_text, keep_text}
use beak.Config.Keeps.Texts.{IsWhole, whole-IsLength, append_nothing}
use beak.Index.Rows.Columns.{append_assoc}
use beak.Config.Keeps.Items.{
  Key, all_key, daily_key, weekly_key, monthly_key, key_name, key_level, put_key, item, Items,
  Ascending, items_text, puts, drop_back-length, items-long, parse-items,
}

-- The lengths of a rule that are not zero.
abbrev opt : Key → ℕ → Items → Items
opt key len rest = if len == 0 then rest else (key, len) ∷ rest

whole_item :
    (key : Key) (len : ℕ) (rest : Items)
    → item key len ++ (b' ' ∷ items_text rest)
      ≡ ((key_name key ++ codes ":") ++ (get_length_of_time len ++ codes " ")) ++ items_text rest
whole_item key len rest =
    let name : Bytes = key_name key in
    let s : Bytes = get_length_of_time len in
    append_assoc name (b':' ∷ s) (b' ' ∷ items_text rest)
    ∙ sym (
        append_assoc (name ++ codes ":") (s ++ codes " ") (items_text rest)
        ∙ append_assoc name (codes ":") ((s ++ codes " ") ++ items_text rest)
        ∙ ap (λ t. name ++ b':' ∷ t) (append_assoc s (codes " ") (items_text rest)))

items_text-opt :
    (key : Key) (len : ℕ) (rest : Items)
    → items_text (opt key len rest) ≡ key_text (key_name key ++ codes ":") len ++ items_text rest
unfolding items_text key_text
items_text-opt key len rest = elim (Bool-cases (len == 0)) [
  | inl e ↦ rw e refl
  | inr e ↦ rw e (whole_item key len rest)
]

puts-opt :
    (key : Key) (len : ℕ) (rest : Items) (k : Keep)
    → puts (opt key len rest) k ≡ puts rest (if len == 0 then k else put_key key len k)
unfolding puts
puts-opt key len rest k = elim (Bool-cases (len == 0)) [ inl e ↦ rw e refl | inr e ↦ rw e refl ]

Ascending-weaken : (l m : ℕ) (items : Items) → l ≤ m → Ascending m items → Ascending l items
Ascending-weaken l m [] h a = a
Ascending-weaken l m (i ∷ items) h (le, good, a) = (omega (arith, le, h), good, a)

opt-Ascending :
    (key : Key) (len level : ℕ) (rest : Items)
    → level ≤ key_level key
    → IsWhole len
    → Ascending (suc (key_level key)) rest
    → Ascending level (opt key len rest)
opt-Ascending key len level rest h w a = elim (Bool-cases (len == 0)) [
  | inl e ↦ rw e (Ascending-weaken level (suc (key_level key)) rest (omega (arith, h)) a)
  | inr e ↦ rw e (h, whole-IsLength len w (ground arith), a)
]

abbrev keep_items : Keep → Items
keep_items k =
    opt all_key k.all
      (opt daily_key k.daily (opt weekly_key k.weekly (opt monthly_key k.monthly [])))

items_text-keep : (k : Keep) → drop_back b' ' (items_text (keep_items k)) ≡ keep_text k
unfolding keep_text key_name items_text
items_text-keep k =
    let m : Items = opt monthly_key k.monthly [] in
    let w : Items = opt weekly_key k.weekly m in
    let d : Items = opt daily_key k.daily w in
    ap (drop_back b' ') (
      items_text-opt all_key k.all d
      ∙ ap (λ t. key_text (codes "all:") k.all ++ t)
          (items_text-opt daily_key k.daily w
            ∙ ap (λ t. key_text (codes "daily:") k.daily ++ t)
                (items_text-opt weekly_key k.weekly m
                  ∙ ap (λ t. key_text (codes "weekly:") k.weekly ++ t)
                      (items_text-opt monthly_key k.monthly []
                        ∙ append_nothing (key_text (codes "monthly:") k.monthly)))))

-- A field that is zero need not be put.
or_zero {ℓ} : {A : Type ℓ} (f : ℕ → A) (n : ℕ) → (if n == 0 then f 0 else f n) ≡ f n
or_zero f n = elim (Bool-cases (n == 0)) [
  | inl e ↦ let zero_ : n ≡ 0 = ground arith in rw e (ap f (sym zero_))
  | inr e ↦ rw e refl
]

puts-keep : (k : Keep) → puts (keep_items k) no_keep ≡ k
unfolding put_key puts
puts-keep k =
    let m : Items = opt monthly_key k.monthly [] in
    let w : Items = opt weekly_key k.weekly m in
    let d : Items = opt daily_key k.daily w in
    let k1 : Keep = record no_keep { all = k.all } in
    let k2 : Keep = record k1 { daily = k.daily } in
    let k3 : Keep = record k2 { weekly = k.weekly } in
    puts-opt all_key k.all d no_keep
    ∙ ap (puts d) (or_zero (λ n. record no_keep { all = n }) k.all)
    ∙ puts-opt daily_key k.daily w k1
    ∙ ap (puts w) (or_zero (λ n. record k1 { daily = n }) k.daily)
    ∙ puts-opt weekly_key k.weekly m k2
    ∙ ap (puts m) (or_zero (λ n. record k2 { weekly = n }) k.weekly)
    ∙ puts-opt monthly_key k.monthly [] k3
    ∙ or_zero (λ n. record k3 { monthly = n }) k.monthly

keep-Ascending :
    (k : Keep)
    → IsWhole k.all
    → IsWhole k.daily
    → IsWhole k.weekly
    → IsWhole k.monthly
    → Ascending 0 (keep_items k)
unfolding key_level
keep-Ascending k a d w m = opt-Ascending all_key k.all 0 _ (omega arith) a (
    opt-Ascending daily_key k.daily 1 _ (omega arith) d (
      opt-Ascending weekly_key k.weekly 2 _ (omega arith) w
        (opt-Ascending monthly_key k.monthly 3 [] (omega arith) m tt)))

length-opt :
    (key : Key) (len : ℕ) (rest : Items)
    → (0 < len) ⊎ (0 < length rest)
    → 0 < length (opt key len rest)
length-opt key len rest (inl h) = let e : (len == 0) ≡ false = ground arith in rw e (omega arith)
length-opt key len rest (inr h) = elim (Bool-cases (len == 0)) [
  | inl e ↦ rw e h
  | inr e ↦ rw e (omega arith)
]

-- Some length is kept.
abbrev pub KeepsSome : Keep → Type 0
KeepsSome k = (0 < k.all) ⊎ ((0 < k.daily) ⊎ ((0 < k.weekly) ⊎ (0 < k.monthly)))

keep_items-nonempty : (k : Keep) → KeepsSome k → 0 < length (keep_items k)
keep_items-nonempty k (inl h) = length-opt all_key k.all _ (inl h)
keep_items-nonempty k (inr (inl h)) =
    length-opt all_key k.all _ (inr (length-opt daily_key k.daily _ (inl h)))
keep_items-nonempty k (inr (inr (inl h))) =
    length-opt all_key k.all _
      (inr (length-opt daily_key k.daily _ (inr (length-opt weekly_key k.weekly _ (inl h)))))
keep_items-nonempty k (inr (inr (inr h))) = length-opt all_key k.all _ (
    inr (
      length-opt daily_key k.daily _ (
        inr
          (length-opt weekly_key k.weekly _ (inr (length-opt monthly_key k.monthly [] (inl h)))))))

parse-text :
    (items : Items)
    → Ascending 0 items
    → 0 < length items
    → parse_keep (drop_back b' ' (items_text items)) ≡ some (puts items no_keep)
unfolding parse_keep
parse-text [] a h = absurd (omega arith)
parse-text (i ∷ items) a h =
    let text : Bytes = items_text (i ∷ items) in
    parse-items (suc (length (drop_back b' ' text))) 0 no_keep i items a
      (omega (arith, items-long (i ∷ items), drop_back-length text b' '))

-- A keep rule whose lengths are zero or whole numbers of days that a time_t can hold, at least one
-- of them not zero, is read back exactly from what Keep::str prints, whichever of the four are
-- there and whatever units are picked.
pub parse_keep-keep_text :
    (k : Keep)
    → IsWhole k.all
    → IsWhole k.daily
    → IsWhole k.weekly
    → IsWhole k.monthly
    → KeepsSome k
    → parse_keep (keep_text k) ≡ some k
parse_keep-keep_text k a d w m some_ =
    ap parse_keep (sym (items_text-keep k))
    ∙ parse-text (keep_items k) (keep-Ascending k a d w m) (keep_items-nonempty k some_)
    ∙ ap some (puts-keep k)
