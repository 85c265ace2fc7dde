-- ===== src/Config/Keeps.antt =====
-- src/configuration.cc: Keep, its parsing and its printing. `none` is the code's false.
pub mod Texts
pub mod Items
pub mod RoundTrip
pub mod Subset
use beak.Prelude.{
  ℕ, zero, suc, ◌+◌, ◌-◌, Bool, true, false, not, ◌&&◌, ◌||◌, Option, none, some, [], ◌∷◌, ◌++◌,
  ltb, leb, ◌==◌, if◌then◌else◌, ◌>>=◌, ◌>>◌, guard, Bytes, codes, length, equal,
}
use beak.Text.Eating.{Eaten, eat_to_skip_whitespace}
use beak.Text.Lengths.{get_length_of_time, parse_length_of_time}
use beak.FileSystem.Paths.{drop_back}
use beak.Prune.{Keep}

abbrev pub no_keep : Keep
no_keep = record { all = 0; daily = 0; weekly = 0; monthly = 0 }

-- A length of time under its key: the keys that are known come in their order. The new level and
-- the new rule.
unfoldable pub set_key : ℕ → Keep → Bytes → ℕ → Option (ℕ × Keep)
set_key level k key len =
    if equal key (codes "all")
    then (guard (not (ltb 0 level)) >> some (1, record k { all = len }))
    else if equal key (codes "daily")
    then (guard (not (ltb 1 level)) >> some (2, record k { daily = len }))
    else if equal key (codes "weekly")
    then (guard (not (ltb 2 level)) >> some (3, record k { weekly = len }))
    else if equal key (codes "monthly")
    then (guard (not (ltb 3 level)) >> some (4, record k { monthly = len }))
    else some (level, k)

-- The loop. Each round takes at least the colon, so that the fuel of the text's length is enough.
unfoldable pub parse_loop : ℕ → ℕ → Keep → Bytes → Option Keep
unfolding eat_to_skip_whitespace parse_length_of_time set_key
parse_loop zero level k v = none
parse_loop (suc fuel) level k v =
    let key = eat_to_skip_whitespace v (some b':') 16 false in
    let value = eat_to_skip_whitespace key.rest (some b' ') 16 key.err in
    guard (not (key.eof || key.err))
    >> (guard (not (not value.eof && value.err))
        >> (parse_length_of_time value.text >>= λ len. set_key level k key.text len >>= λ next.
            elim value.eof [
              | true ↦ some next.1
              | false ↦ parse_loop fuel next.0 next.1 value.rest
            ]))

unfoldable pub parse_keep : Bytes → Option Keep
unfolding parse_loop
parse_keep s = parse_loop (suc (length s)) 0 no_keep s

-- A length with its key in front, unless it is zero.
unfoldable pub key_text : Bytes → ℕ → Bytes
unfolding get_length_of_time
key_text key len = if len == 0 then [] else key ++ (get_length_of_time len ++ codes " ")

unfoldable pub keep_text : Keep → Bytes
unfolding key_text drop_back
keep_text k = drop_back b' ' (
    key_text (codes "all:") k.all
    ++ (key_text (codes "daily:") k.daily
        ++ (key_text (codes "weekly:") k.weekly ++ key_text (codes "monthly:") k.monthly)))

unfoldable pub subset_of : Keep → Keep → Bool
subset_of a b =
    not (ltb b.all a.all)
    && (not (ltb b.daily a.daily) && (not (ltb b.weekly a.weekly) && not (ltb b.monthly a.monthly)))
