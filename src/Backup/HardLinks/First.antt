-- ===== src/Backup/HardLinks/First.antt =====
-- src/backup.cc, findHardLinks: the map of inodes stands for a search among the files before.
use beak.Prelude.{
  ℕ, ◌≡◌, ◌∙◌, refl, sym, Bool, true, false, ◌&&◌, Option, none, some, List, [], ◌∷◌, ◌++◌, ◌==◌,
  if◌then◌else◌, ◌>>=◌, at, Bytes, arith, inl, inr, Bool-cases, Option-cases, ap,
}
use beak.Tar.Header.{EntryMeta, update_sizes}
use beak.Prelude.Maps.{Map, get, put, get-put}
use beak.Backup.HardLinks.{
  ScannedFile, rewrite_into_hard_link, Linked, shares_inode, link_file, link_loop, find_hard_links,
}

-- The first of the files that shares the inode.
abbrev pub first_with : ℕ → List ScannedFile → Option ScannedFile
first_with i [] = none
first_with i (te ∷ files) =
    let rest = first_with i files in if shares_inode te && te.st_ino == i then some te else rest

-- What the header says of a hard link to a path.
abbrev pub link_meta : EntryMeta → Bytes → EntryMeta
link_meta m path = record {
  tarpath = m.tarpath;
  link = some path;
  is_regular_file = m.is_regular_file;
  is_hard_linked = true;
  st_size = m.st_size;
  tar_header_style = m.tar_header_style;
}

-- What becomes of a file, given the first file before it that shares its inode: the same file with
-- the path of that first file as its link, and the sizes of such a header.
abbrev pub linked_to : ScannedFile → Option ScannedFile → Option ScannedFile
linked_to te none = some te
linked_to te (some target) =
    if at target.path 0 == b'/'
    then (update_sizes (link_meta te.meta target.path) >>= λ sizes. some (record {
      path = te.path;
      meta = link_meta te.meta target.path;
      sizes = sizes;
      is_directory = te.is_directory;
      st_nlink = te.st_nlink;
      st_ino = te.st_ino;
    }))
    else none

rewrite-linked_to :
    (te target : ScannedFile) → rewrite_into_hard_link te target ≡ linked_to te (some target)
unfolding rewrite_into_hard_link
rewrite-linked_to te target = elim (Option-cases (update_sizes (link_meta te.meta target.path))) [
  | inl failed ↦ elim (Bool-cases (at target.path 0 == b'/')) [
    | inl e ↦ rw (failed, e) refl
    | inr e ↦ rw (failed, e) refl
  ]
  | inr (sizes, given) ↦ elim (Bool-cases (at target.path 0 == b'/')) [
    | inl e ↦ rw (given, e) refl
    | inr e ↦ rw (given, e) refl
  ]
]

abbrev pub linked : List ScannedFile → ScannedFile → Option ScannedFile
linked before te = if shares_inode te then linked_to te (first_with te.st_ino before) else some te

-- Every file after the files before it, the last first.
abbrev pub link_all :
    List ScannedFile → List ScannedFile → List ScannedFile → Option (List ScannedFile)
link_all before done [] = some done
link_all before done (te ∷ files) =
    linked before te >>= λ u. link_all (before ++ te ∷ []) (u ∷ done) files

abbrev otherwise : Option ScannedFile → Option ScannedFile → Option ScannedFile
otherwise none g = g
otherwise (some f) g = some f

first_with-snoc :
    (i : ℕ) (before : List ScannedFile) (te : ScannedFile)
    → first_with i (before ++ te ∷ [])
      ≡ otherwise
          (first_with i before)
          (if shares_inode te && te.st_ino == i then some te else none)
first_with-snoc i [] te = refl
first_with-snoc i (f ∷ before) te = elim (Bool-cases (shares_inode f && f.st_ino == i)) [
  | inl e ↦ rw e refl
  | inr e ↦ rw e (first_with-snoc i before te)
]

otherwise-none : (f : Option ScannedFile) → otherwise f none ≡ f
otherwise-none none = refl
otherwise-none (some f) = refl

rest_none :
    (b : Bool) (f : Option ScannedFile) (te : ScannedFile)
    → otherwise f (if b && false then some te else none) ≡ f
rest_none true f te = otherwise-none f
rest_none false f te = otherwise-none f

-- hard_links has the first file of each inode.
abbrev Agrees : Map ScannedFile → List ScannedFile → Type 0
Agrees m before = (i : ℕ) → get i m ≡ first_with i before

same_inode : (i j : ℕ) → (i == j) ≡ true → i ≡ j
same_inode i j e = ground arith

Agrees-other :
    (m : Map ScannedFile) (before : List ScannedFile) (te : ScannedFile)
    → Agrees m before
    → shares_inode te ≡ false
    → Agrees m (before ++ te ∷ [])
Agrees-other m before te a h i =
    a i ∙ sym (first_with-snoc i before te ∙ rw h (otherwise-none (first_with i before)))

Agrees-first :
    (m : Map ScannedFile) (before : List ScannedFile) (te : ScannedFile)
    → Agrees m before
    → shares_inode te ≡ true
    → get te.st_ino m ≡ none
    → Agrees (put te.st_ino te m) (before ++ te ∷ [])
Agrees-first m before te a h n i =
    get-put te.st_ino i te m
    ∙ sym (
        first_with-snoc i before te ∙ elim (Bool-cases (te.st_ino == i)) [
          | inl e ↦
              let nothing : first_with i before ≡ none =
                sym (a i) ∙ ap (λ (j : ℕ). get j m) (sym (same_inode te.st_ino i e)) ∙ n in
              rw (nothing, h, e) refl
          | inr e ↦ rw (h, e, a i) (otherwise-none (first_with i before))
        ])

Agrees-later :
    (m : Map ScannedFile) (before : List ScannedFile) (te prev : ScannedFile)
    → Agrees m before
    → get te.st_ino m ≡ some prev
    → Agrees m (before ++ te ∷ [])
Agrees-later m before te prev a p i =
    a i
    ∙ sym (
        first_with-snoc i before te ∙ elim (Bool-cases (te.st_ino == i)) [
          | inl e ↦
              let found : first_with i before ≡ some prev =
                sym (a i) ∙ ap (λ (j : ℕ). get j m) (sym (same_inode te.st_ino i e)) ∙ p in
              rw found refl
          | inr e ↦ rw e (rest_none (shares_inode te) (first_with i before) te)
        ])

get_nothing : (i : ℕ) → get {V = ScannedFile} i [] ≡ none
unfolding get
get_nothing i = refl

unfoldable pub files_of : Option Linked → Option (List ScannedFile)
files_of none = none
files_of (some s) = some s.done

link_loop-link_all :
    (files before done : List ScannedFile) (m : Map ScannedFile) (savings : ℕ)
    → Agrees m before
    → files_of (link_loop (record { done = done; hard_links = m; savings = savings }) files)
      ≡ link_all before done files
unfolding link_loop link_file files_of
link_loop-link_all [] before done m savings a = refl
link_loop-link_all (te ∷ files) before done m savings a = elim (Bool-cases (shares_inode te)) [
  | inl e ↦ elim (Option-cases (get te.st_ino m)) [
    | inl n ↦
        rw (e, n, sym (a te.st_ino) ∙ n)
          (link_loop-link_all files (before ++ te ∷ []) (te ∷ done) (put te.st_ino te m) savings
            (Agrees-first m before te a e n))
    | inr (prev, p) ↦ elim (Option-cases (rewrite_into_hard_link te prev)) [
      | inl failed ↦
          rw (e, p, sym (a te.st_ino) ∙ p, failed, sym (rewrite-linked_to te prev) ∙ failed) refl
      | inr (u, done_so) ↦
          rw (e, p, sym (a te.st_ino) ∙ p, done_so, sym (rewrite-linked_to te prev) ∙ done_so)
            (link_loop-link_all files (before ++ te ∷ []) (u ∷ done) m _
              (Agrees-later m before te prev a p))
    ]
  ]
  | inr e ↦ rw e (
      link_loop-link_all files (before ++ te ∷ []) (te ∷ done) m savings
        (Agrees-other m before te a e))
]

-- The search for hard links leaves every file as it is, but for those that share an inode with a
-- file before them: these become hard links to the first such file, with its path as their link and
-- the sizes that the header of a hard link has. It fails exactly when such a path does not start
-- with a slash, or the sizes of such a header cannot be computed.
pub find_hard_links-link_all :
    (files : List ScannedFile) → files_of (find_hard_links files) ≡ link_all [] [] files
unfolding find_hard_links
find_hard_links-link_all files = link_loop-link_all files [] [] [] 0 (λ i. get_nothing i)
