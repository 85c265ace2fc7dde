-- ===== src/Backup/Tree/Nearest.antt =====
-- src/backup.cc: the tar collection directory that an entry comes under is the nearest one above
-- it.
use mathlib.Core.List.{append-nil, append_assoc}
use beak.Prelude.{
  ◌≡◌, ◌∙◌, refl, sym, Bool, true, false, some, List, [], ◌∷◌, ◌++◌, inl, inr, Bool-cases, ap,
  Bytes, ◌⊎◌, ◌↔◌, some_inj, subst, equal, equal_iff, arith,
}
use beak.Backup.Tree.{
  TreePath, same_path, Directories, climb, find_parent_tcd, is_storage_dir, collection_dir, Entries,
  add_entry, add_entries,
}

-- No directory above is a tar collection directory before `q` is reached.
abbrev NoneBetween : Directories → List Bytes → TreePath → Type 0
NoneBetween d [] q = Unit
NoneBetween d (n ∷ names) q =
    (is_storage_dir (d (n ∷ (names ++ q))) ≡ false) × NoneBetween d names q

-- `q` is the nearest of the tar collection directories from the directory `p` on.
abbrev pub IsNearest : Directories → TreePath → TreePath → Type 0
IsNearest d p q =
    (names : List Bytes) × (p ≡ names ++ q) × (is_storage_dir (d q) ≡ true) × NoneBetween d names q

-- In a tree whose root is a tar collection directory, the way up from an entry below the root ends,
-- at the nearest tar collection directory above it.
pub collection_dir-IsNearest :
    (d : Directories) (n : Bytes) (p : TreePath)
    → is_storage_dir (d []) ≡ true
    → (q : TreePath) × (collection_dir d (n ∷ p) ≡ some q) × IsNearest d p q
unfolding collection_dir
collection_dir-IsNearest d n [] root = ([], rw root refl, ([], refl, root, tt))
collection_dir-IsNearest d n (m ∷ p) root = elim (Bool-cases (is_storage_dir (d (m ∷ p)))) [
  | inl e ↦ (m ∷ p, rw e refl, ([], refl, e, tt))
  | inr e ↦
      let (q, run, (names, same, storage, between)) = collection_dir-IsNearest d m p root in
      (
        q,
        rw e run,
        (m ∷ names, ap (λ (r : TreePath). m ∷ r) same, storage, (rw (sym same) e, between)),
      )
]

-- Every directory from here up is listed.
abbrev pub AreListed : Directories → TreePath → Type 0
AreListed d [] = (s : Bool) × (d [] ≡ some s)
AreListed d (n ∷ p) = ((s : Bool) × (d (n ∷ p) ≡ some s)) × AreListed d p

-- In a tree whose root is a tar collection directory, findParentTCD finds, for a path below the
-- root with all the directories above it listed, the directory that addEntriesToTarCollectionDirs
-- finds.
pub find_parent_tcd-collection_dir :
    (d : Directories) (n : Bytes) (p : TreePath)
    → is_storage_dir (d []) ≡ true
    → AreListed d p
    → find_parent_tcd d (n ∷ p) ≡ collection_dir d (n ∷ p)
unfolding find_parent_tcd climb collection_dir is_storage_dir
find_parent_tcd-collection_dir d n [] root (s, e) = rw e (rw (rw e at root) refl)
find_parent_tcd-collection_dir d n (m ∷ p) root ((true, e), listed) = rw e refl
find_parent_tcd-collection_dir d n (m ∷ p) root ((false, e), listed) =
    rw e (find_parent_tcd-collection_dir d m p root listed)

-- The list has, in their order, the files below the root for which `q` is the nearest tar
-- collection directory from their parent on, and no others.
abbrev pub Collects : Directories → TreePath → List TreePath → List TreePath → Type 0
Collects d q [] l = l ≡ []
Collects d q ([] ∷ files) l = Collects d q files l
Collects d q ((n ∷ p) ∷ files) l =
    (IsNearest d p q × ((rest : List TreePath) × (l ≡ (n ∷ p) ∷ rest) × Collects d q files rest))
    ⊎ ((¬ IsNearest d p q) × Collects d q files l)

-- There is one nearest directory.
nearest_found :
    (d : Directories) (n : Bytes) (names : List Bytes) (q : TreePath)
    → is_storage_dir (d q) ≡ true
    → NoneBetween d names q
    → collection_dir d (n ∷ (names ++ q)) ≡ some q
unfolding collection_dir
nearest_found d n [] q storage between = rw storage refl
nearest_found d n (m ∷ names) q storage (first, between) =
    rw first (nearest_found d m names q storage between)

IsNearest-unique :
    (d : Directories) (n : Bytes) (p q dir : TreePath)
    → collection_dir d (n ∷ p) ≡ some dir
    → IsNearest d p q
    → dir ≡ q
IsNearest-unique d n p q dir found (names, same, storage, between) = some_inj (
    sym found
    ∙ ap (λ (r : TreePath). collection_dir d (n ∷ r)) same
    ∙ nearest_found d n names q storage between)

same_path_iff : (p q : TreePath) → (same_path p q ≡ true) ↔ (p ≡ q)
unfolding same_path
same_path_iff [] [] = (λ h. refl, λ h. refl)
same_path_iff [] (n ∷ q) = (λ h. absurd (cc), λ h. absurd (cc))
same_path_iff (m ∷ p) [] = (λ h. absurd (cc), λ h. absurd (cc))
same_path_iff (m ∷ p) (n ∷ q) = (there (same_path_iff p q), back (same_path_iff p q))
  where
    there : (same_path p q ≡ true) ↔ (p ≡ q) → same_path (m ∷ p) (n ∷ q) ≡ true → m ∷ p ≡ n ∷ q
    there same h =
        let first : equal m n ≡ true = ground arith in
        let rest : same_path p q ≡ true = ground arith in
        let e = (equal_iff m n).0 first in let f = same.0 rest in cc

    back : (same_path p q ≡ true) ↔ (p ≡ q) → m ∷ p ≡ n ∷ q → same_path (m ∷ p) (n ∷ q) ≡ true
    back same e =
        let first : m ≡ n = cc in
        let rest : p ≡ q = cc in rw ((equal_iff m n).1 first, same.1 rest) refl

-- An entry goes to the end of its directory, and nowhere else.
added :
    (d : Directories) (entries r : Entries) (n : Bytes) (p dir q : TreePath)
    (files l : List TreePath)
    → collection_dir d (n ∷ p) ≡ some dir
    → IsNearest d p dir
    → Collects d q files l
    → r q ≡ add_entry entries dir (n ∷ p) q ++ l
    → (k : List TreePath) × Collects d q ((n ∷ p) ∷ files) k × (r q ≡ entries q ++ k)
unfolding add_entry
added d entries r n p dir q files l found nearest collects same =
    elim (Bool-cases (same_path dir q)) [
      | inl e ↦ (
        (n ∷ p) ∷ l,
        inl (
          subst (λ (x : TreePath). IsNearest d p x) ((same_path_iff dir q).0 e) nearest,
          (l, refl, collects),
        ),
        rw e at same ∙ append_assoc (entries q) ((n ∷ p) ∷ []) l,
      )
      | inr e ↦ (
        l,
        inr (
          λ near. cc (sym e ∙ (same_path_iff dir q).1 (IsNearest-unique d n p q dir found near)),
          collects,
        ),
        rw e at same,
      )
    ]

-- In a tree whose root is a tar collection directory, the adding succeeds, and every directory gets
-- behind the entries that it had, in their order, the files below the root whose nearest tar
-- collection directory above them it is, and no others.
pub add_entries-Collects :
    (d : Directories) (entries : Entries) (files : List TreePath) (q : TreePath)
    → is_storage_dir (d []) ≡ true
    → (r : Entries) × (add_entries d entries files ≡ some r)
      × ((l : List TreePath) × Collects d q files l × (r q ≡ entries q ++ l))
unfolding add_entries
add_entries-Collects d entries [] q root = (entries, refl, ([], refl, sym (append-nil (entries q))))
add_entries-Collects d entries ([] ∷ files) q root = add_entries-Collects d entries files q root
add_entries-Collects d entries ((n ∷ p) ∷ files) q root =
    let (dir, found, nearest) = collection_dir-IsNearest d n p root in
    let (r, run, (l, collects, same)) =
      add_entries-Collects d (add_entry entries dir (n ∷ p)) files q root in
    (r, rw found run, added d entries r n p dir q files l found nearest collects same)
