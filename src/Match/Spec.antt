-- ===== src/Match/Spec.antt =====
-- What it means for a path to match, with no search in it: the rules of src/match.h, as the
-- settings that `use` stores express them.
use beak.Prelude.{◌≡◌, true, false, [], ◌∷◌, ◌++◌, ◌⊎◌, Bytes, has_char}
use beak.Match.{Match}

-- The path ends here, or goes on with a slash.
abbrev pub EndsSegment : Bytes → Type 0
EndsSegment rest = (rest ≡ []) ⊎ ((r : Bytes) × (rest ≡ b'/' ∷ r))

-- What stands before the last element of a path.
abbrev pub IsDir : Bytes → Type 0
IsDir dir = (dir ≡ []) ⊎ ((d : Bytes) × (dir ≡ d ++ b'/' ∷ []))

-- `name` is the last element of `path`.
pub record IsName (path name : Bytes) : Type 0 where
  pub dir : Bytes
  pub is_dir : IsDir dir
  pub no_slash : has_char name b'/' ≡ false
  pub joined : path ≡ dir ++ name

pub data IsMatch (m : Match) (path : Bytes) : Type 0 where
  rooted_below :
      m.rooted ≡ true
      → m.suffix_doublestar ≡ true
      → (rest : Bytes) → path ≡ m.pattern ++ rest
      → EndsSegment rest
      → IsMatch m path
  rooted_exact : m.rooted ≡ true → m.suffix_doublestar ≡ false → path ≡ m.pattern → IsMatch m path
  below :
      m.rooted ≡ false
      → m.suffix_doublestar ≡ true
      → (before rest : Bytes) → path ≡ before ++ (m.pattern ++ rest)
      → EndsSegment rest
      → IsMatch m path
  name_ends :
      m.rooted ≡ false
      → m.suffix_doublestar ≡ false
      → m.prefix_singlestar ≡ true
      → (x : Bytes) → IsName path (x ++ m.pattern)
      → IsMatch m path
  name_begins :
      m.rooted ≡ false
      → m.suffix_doublestar ≡ false
      → m.prefix_singlestar ≡ false
      → m.suffix_singlestar ≡ true
      → (x : Bytes) → IsName path (m.pattern ++ x)
      → IsMatch m path
  name_is :
      m.rooted ≡ false
      → m.suffix_doublestar ≡ false
      → m.prefix_singlestar ≡ false
      → m.suffix_singlestar ≡ false
      → IsName path m.pattern
      → IsMatch m path
