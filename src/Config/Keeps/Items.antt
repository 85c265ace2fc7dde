-- ===== src/Config/Keeps/Items.antt =====
-- src/configuration.cc: the loop of Keep::parse over the lengths that are written under their keys.
use beak.Prelude.{
  ℕ, zero, suc, ◌+◌, ◌≤◌, ◌<◌, ◌≡◌, refl, ap, sym, ◌∙◌, true, false, not, ◌&&◌, ◌||◌, Option, some,
  List, [], ◌∷◌, ◌++◌, arith, ltb, ◌>>=◌, ◌>>◌, guard, Bytes, codes, length, length-append,
  has_char, equal,
}
use beak.Text.Eating.{Eaten, is_end, is_blank, eat_to_skip_whitespace}
use beak.Text.Lengths.{get_length_of_time, parse_length_of_time}
use beak.FileSystem.Paths.{drop_back}
use beak.Prune.{Keep}
use beak.Config.Keeps.{set_key, parse_loop}
use beak.Config.Keeps.Texts.{
  solid, solid-free, skip-field, skip-last, solid-going, IsLength, append_nothing,
}
use beak.Index.Rows.Columns.{append_assoc}

-- The keys, by their level.
pub data Key : Type 0 where
  all_key daily_key weekly_key monthly_key : Key

unfoldable pub key_name : Key → Bytes
key_name all_key = codes "all"
key_name daily_key = codes "daily"
key_name weekly_key = codes "weekly"
key_name monthly_key = codes "monthly"

unfoldable pub key_level : Key → ℕ
key_level all_key = 0
key_level daily_key = 1
key_level weekly_key = 2
key_level monthly_key = 3

unfoldable pub put_key : Key → ℕ → Keep → Keep
put_key all_key len k = record k { all = len }
put_key daily_key len k = record k { daily = len }
put_key weekly_key len k = record k { weekly = len }
put_key monthly_key len k = record k { monthly = len }

set_key-name :
    (key : Key) (level len : ℕ) (k : Keep)
    → level ≤ key_level key
    → set_key level k (key_name key) len ≡ some (suc (key_level key), put_key key len k)
unfolding set_key key_name key_level put_key equal
set_key-name all_key level len k h = let e : ltb 0 level ≡ false = ground arith in rw e refl
set_key-name daily_key level len k h = let e : ltb 1 level ≡ false = ground arith in rw e refl
set_key-name weekly_key level len k h = let e : ltb 2 level ≡ false = ground arith in rw e refl
set_key-name monthly_key level len k h = let e : ltb 3 level ≡ false = ground arith in rw e refl

-- What is written for a length that is there.
abbrev pub item : Key → ℕ → Bytes
item key len = key_name key ++ b':' ∷ get_length_of_time len

abbrev loop_step : (ℕ → Keep → Bytes → Option Keep) → ℕ → Keep → Eaten → Eaten → Option Keep
loop_step again level k key value =
    guard (not (key.eof || key.err))
    >> (guard (not (not value.eof && value.err))
        >> (parse_length_of_time value.text >>= λ len. set_key level k key.text len >>= λ next.
            elim value.eof [ true ↦ some next.1 | false ↦ again next.0 next.1 value.rest ]))

key-plain :
    (key : Key)
    → (solid (key_name key) ≡ true)
      × (0 < length (key_name key))
      × (has_char (key_name key) b':' ≡ false)
      × (length (key_name key) ≤ 16)
unfolding key_name solid has_char is_blank
key-plain all_key = (refl, omega arith, refl, omega arith)
key-plain daily_key = (refl, omega arith, refl, omega arith)
key-plain weekly_key = (refl, omega arith, refl, omega arith)
key-plain monthly_key = (refl, omega arith, refl, omega arith)

-- The key is read, and what follows it is the value.
parse_loop-key :
    (fuel level : ℕ) (k : Keep) (key : Key) (text : Bytes)
    → is_end text ≡ false
    → parse_loop (suc fuel) level k (key_name key ++ b':' ∷ text)
      ≡ loop_step
          (parse_loop fuel)
          level
          k
          (record { text = key_name key; rest = text; eof = false; err = false })
          (eat_to_skip_whitespace text (some b' ') 16 false)
unfolding parse_loop
parse_loop-key fuel level k key text going =
    let (is_solid, nonempty, free, fits) = key-plain key in
    ap
      (λ (e : Eaten).
        loop_step (parse_loop fuel) level k e (eat_to_skip_whitespace e.rest (some b' ') 16 e.err))
      (skip-field (key_name key) text b':' false is_solid nonempty free fits
        ∙ ap (λ b. record { text = key_name key; rest = text; eof = b; err = false }) going)

parse_loop-last :
    (fuel level : ℕ) (k : Keep) (key : Key) (len : ℕ)
    → level ≤ key_level key
    → IsLength len
    → parse_loop (suc fuel) level k (item key len) ≡ some (put_key key len k)
parse_loop-last fuel level k key len h l =
    let s : Bytes = get_length_of_time len in
    let going = ap is_end (sym (append_nothing s)) ∙ solid-going s [] l.nonempty in
    parse_loop-key fuel level k key s going
    ∙ ap
        (loop_step (parse_loop fuel) level k
          (record { text = key_name key; rest = s; eof = false; err = false }))
        (skip-last s b' ' false l.is_solid l.nonempty (solid-free s l.is_solid) l.fits)
    ∙ rw (l.back, set_key-name key level len k h) refl

parse_loop-next :
    (fuel level : ℕ) (k : Keep) (key : Key) (len : ℕ) (v : Bytes)
    → level ≤ key_level key
    → IsLength len
    → is_end v ≡ false
    → parse_loop (suc fuel) level k (key_name key ++ b':' ∷ (get_length_of_time len ++ b' ' ∷ v))
      ≡ parse_loop fuel (suc (key_level key)) (put_key key len k) v
parse_loop-next fuel level k key len v h l going =
    let s : Bytes = get_length_of_time len in
    parse_loop-key fuel level k key (s ++ b' ' ∷ v) (solid-going s (b' ' ∷ v) l.nonempty)
    ∙ ap
        (loop_step (parse_loop fuel) level k
          (record { text = key_name key; rest = s ++ b' ' ∷ v; eof = false; err = false }))
        (skip-field s v b' ' false l.is_solid l.nonempty (solid-free s l.is_solid) l.fits)
    ∙ rw (l.back, set_key-name key level len k h, going) refl

-- The lengths that are there, with their keys in ascending order from a level on.
abbrev pub Items : Type 0
Items = List (Key × ℕ)

abbrev pub Ascending : ℕ → Items → Type 0
Ascending level [] = Unit
Ascending level ((key, len) ∷ items) =
    (level ≤ key_level key) × IsLength len × Ascending (suc (key_level key)) items

unfoldable pub items_text : Items → Bytes
items_text [] = []
items_text ((key, len) ∷ items) = item key len ++ (b' ' ∷ items_text items)

unfoldable pub puts : Items → Keep → Keep
puts [] k = k
puts ((key, len) ∷ items) k = puts items (put_key key len k)

drop_back-cons :
    (x : ℕ) (s : Bytes) (c : ℕ) → 0 < length s → drop_back c (x ∷ s) ≡ x ∷ drop_back c s
unfolding drop_back
drop_back-cons x [] c h = absurd (omega arith)
drop_back-cons x (y ∷ s) c h = refl

drop_back-append : (s t : Bytes) (c : ℕ) → 0 < length t → drop_back c (s ++ t) ≡ s ++ drop_back c t
drop_back-append [] t c h = refl
drop_back-append (x ∷ s) t c h =
    drop_back-cons x (s ++ t) c (omega (arith, length-append s t, h))
    ∙ ap (◌∷◌ x) (drop_back-append s t c h)

drop_last_blank : (s : Bytes) → drop_back b' ' (s ++ b' ' ∷ []) ≡ s
unfolding drop_back
drop_last_blank s = drop_back-append s (b' ' ∷ []) b' ' (omega arith) ∙ append_nothing s

pub drop_back-length : (s : Bytes) (c : ℕ) → length s ≤ suc (length (drop_back c s))
unfolding drop_back
drop_back-length [] c = omega arith
drop_back-length (x ∷ []) c = omega arith
drop_back-length (x ∷ y ∷ s) c = omega (arith, drop_back-length (y ∷ s) c)

item-long : (key : Key) (len : ℕ) → 2 ≤ length (item key len)
item-long key len =
    let (_, nonempty, _, _) = key-plain key in
    omega (arith, nonempty, length-append (key_name key) (b':' ∷ get_length_of_time len))

pub items-long : (items : Items) → length items + length items ≤ length (items_text items)
unfolding items_text
items-long [] = omega arith
items-long ((key, len) ∷ items) = omega (
  arith,
  item-long key len,
  items-long items,
  length-append (item key len) (b' ' ∷ items_text items),
)

items-going :
    (i : Key × ℕ) (items : Items) → is_end (drop_back b' ' (items_text (i ∷ items))) ≡ false
unfolding items_text
items-going (key, len) items =
    let (_, nonempty, _, _) = key-plain key in
    let more : Bytes = b':' ∷ (get_length_of_time len ++ b' ' ∷ items_text items) in
    ap (λ s. is_end (drop_back b' ' s))
      (append_assoc (key_name key) (b':' ∷ get_length_of_time len) (b' ' ∷ items_text items))
    ∙ ap is_end (drop_back-append (key_name key) more b' ' (omega arith))
    ∙ solid-going (key_name key) (drop_back b' ' more) nonempty

pub parse-items :
    (fuel level : ℕ) (k : Keep) (i : Key × ℕ) (items : Items)
    → Ascending level (i ∷ items)
    → length (i ∷ items) ≤ fuel
    → parse_loop fuel level k (drop_back b' ' (items_text (i ∷ items))) ≡ some (puts (i ∷ items) k)
unfolding items_text puts
parse-items zero level k i items h enough = absurd (omega arith)
parse-items (suc fuel) level k (key, len) [] (le, l, _) enough =
    ap (parse_loop (suc fuel) level k) (drop_last_blank (item key len))
    ∙ parse_loop-last fuel level k key len le l
parse-items (suc fuel) level k (key, len) (j ∷ items) (le, l, h) enough =
    let more : Bytes = items_text (j ∷ items) in
    let long = items-long (j ∷ items) in
    let cut : drop_back b' ' (item key len ++ b' ' ∷ more)
        ≡ key_name key ++ b':' ∷ (get_length_of_time len ++ b' ' ∷ drop_back b' ' more) =
      drop_back-append (item key len) (b' ' ∷ more) b' ' (omega arith)
      ∙ ap (λ t. item key len ++ t) (drop_back-cons b' ' more b' ' (omega (arith, long)))
      ∙ append_assoc (key_name key) (b':' ∷ get_length_of_time len) (b' ' ∷ drop_back b' ' more) in
    ap (parse_loop (suc fuel) level k) cut
    ∙ parse_loop-next fuel level k key len (drop_back b' ' more) le l (items-going j items)
    ∙ parse-items fuel (suc (key_level key)) (put_key key len k) j items h (omega (arith, enough))
