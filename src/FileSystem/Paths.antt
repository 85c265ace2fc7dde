-- ===== src/FileSystem/Paths.antt =====
-- src/filesystem.cc: Path, as the text that is interned for it. Two paths are the same object
-- exactly if their texts are equal, as long as no text ends in two slashes; the text of a first
-- lookup is what is computed here.
use beak.Prelude.{
  ℕ, zero, suc, Option, none, some, List, [], ◌∷◌, ◌++◌, ◌==◌, if◌then◌else◌, ◌>>=◌, Bytes, length,
  take, drop, at, equal,
}

-- `if (s.back() == c) s.pop_back();`
unfoldable pub drop_back : ℕ → Bytes → Bytes
drop_back c [] = []
drop_back c (x ∷ s) =
    let rest = drop_back c s in elim s [ [] ↦ (if x == c then [] else x ∷ []) | (y ∷ t) ↦ x ∷ rest ]

-- dirname_ drops the second slash from the text that is interned.
unfoldable pub lookup : Bytes → Bytes
unfolding drop_back
lookup p = drop_back b'/' (drop_back b'/' (drop_back b'\n' p))

-- find_last_of('/'): what stands before the last slash, and what stands behind it.
unfoldable pub last_slash : Bytes → Option (Bytes × Bytes)
last_slash [] = none
last_slash (c ∷ s) = elim (last_slash s) [
  | some r ↦ some (c ∷ r.0, r.1)
  | none ↦ if c == b'/' then some ([], s) else none
]

-- The slash at the end is dropped; then it is the text behind the last slash.
unfoldable pub basename : Bytes → Bytes
unfolding drop_back last_slash
basename s = let t = drop_back b'/' s in elim (last_slash t) [ none ↦ t | some r ↦ r.1 ]

-- `none` is the code's false.
unfoldable pub dirname : Bytes → Option Bytes
unfolding drop_back last_slash
dirname s = last_slash (drop_back b'/' s) >>= λ r. some r.0

unfoldable pub parent : Bytes → Option Bytes
unfolding dirname lookup
parent p = dirname p >>= λ d. some (lookup d)

-- The names from the root on: Path::nodes with the names of its elements. A parent is shorter.
unfoldable pub nodes_loop : ℕ → Bytes → List Bytes → List Bytes
unfolding parent basename
nodes_loop zero p v = v
nodes_loop (suc fuel) p v = elim (parent p) [
  | none ↦ basename p ∷ v
  | some q ↦ nodes_loop fuel q (basename p ∷ v)
]

unfoldable pub nodes : Bytes → List Bytes
unfolding nodes_loop
nodes p = nodes_loop (suc (length p)) p []

unfoldable pub join_names : List Bytes → Bytes
join_names [] = []
join_names (n ∷ ns) = elim ns [ [] ↦ n | (m ∷ ms) ↦ n ++ b'/' ∷ join_names ns ]

-- subpath(from), up to the end.
unfoldable pub subpath : ℕ → Bytes → Bytes
unfolding nodes join_names lookup
subpath from p = lookup (join_names (drop from (nodes p)))

-- How many names the two have in common in front.
unfoldable pub common : List Bytes → List Bytes → ℕ
unfolding equal
common [] ns = 0
common (m ∷ ms) [] = 0
common (m ∷ ms) (n ∷ ns) = let rest = common ms ns in if equal m n then suc rest else 0

-- `none` is the null pointer of a subpath of length zero.
unfoldable pub common_prefix : Bytes → Bytes → Option Bytes
unfolding nodes common join_names lookup
common_prefix a b =
    let i = common (nodes a) (nodes b) in
    if i == 0 then none else some (lookup (join_names (take i (nodes a))))

unfoldable pub append : Bytes → Bytes → Bytes
unfolding lookup at
append s p = lookup (if at p 0 == b'/' then s ++ p else s ++ b'/' ∷ p)

unfoldable pub prepend_path : Bytes → Bytes → Bytes
unfolding lookup at
prepend_path p s = lookup (if at s 0 == b'/' then p ++ s else p ++ b'/' ∷ s)

unfoldable pub depth : Bytes → ℕ
unfolding nodes
depth p = length (nodes p)
