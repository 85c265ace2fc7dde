-- ===== src/Backup/Tree.antt =====
-- src/backup.cc, findParentTCD, addEntriesToTarCollectionDirs and sortTarCollectionEntries: the tar
-- collection directories of a tree and their entries. `none` is an assertion that fails, or
-- undefined behaviour.
pub mod Nearest
use beak.Prelude.{
  Bool, true, false, ◌&&◌, Option, none, some, List, [], ◌∷◌, ◌++◌, if◌then◌else◌, ◌>>=◌, Bytes,
  equal,
}

-- A path from the root, its deepest name first. The root is empty, and a parent is the tail.
abbrev pub TreePath : Type 0
TreePath = List Bytes

unfoldable pub same_path : TreePath → TreePath → Bool
same_path [] [] = true
same_path [] (n ∷ q) = false
same_path (m ∷ p) [] = false
same_path (m ∷ p) (n ∷ q) = let rest = same_path p q in equal m n && rest

-- `directories`: the ones that are listed, and whether they are tar collection directories.
abbrev pub Directories : Type 0
Directories = TreePath → Option Bool

-- The loop of findParentTCD, which is at a path.
unfoldable pub climb : Directories → TreePath → Option TreePath
climb d [] = d [] >>= λ storage. some []
climb d (n ∷ p) =
    let above = climb d p in d (n ∷ p) >>= λ storage. if storage then some (n ∷ p) else above

unfoldable pub find_parent_tcd : Directories → TreePath → Option TreePath
find_parent_tcd d [] = none
find_parent_tcd d (n ∷ p) = climb d p

unfoldable pub is_storage_dir : Option Bool → Bool
is_storage_dir none = false
is_storage_dir (some storage) = storage

-- The loop of addEntriesToTarCollectionDirs. Directories inside tars only are no longer listed.
unfoldable pub collection_dir : Directories → TreePath → Option TreePath
collection_dir d [] = none
collection_dir d (n ∷ p) =
    let above = collection_dir d p in if is_storage_dir (d p) then some p else above

-- The entries of every directory.
abbrev pub Entries : Type 0
Entries = TreePath → List TreePath

unfoldable pub add_entry : Entries → TreePath → TreePath → Entries
add_entry entries dir te q = if same_path dir q then entries q ++ te ∷ [] else entries q

unfoldable pub add_entries : Directories → Entries → List TreePath → Option Entries
add_entries d entries [] = some entries
add_entries d entries ([] ∷ files) = add_entries d entries files
add_entries d entries ((n ∷ p) ∷ files) =
    collection_dir d (n ∷ p) >>= λ dir. add_entries d (add_entry entries dir (n ∷ p)) files

-- The loop of sortTarCollectionEntries over the sorted entries: what is left of them, and
-- hard_links. The entry that is put there is the one behind the hard link that was erased.
unfoldable pub take_hard_links {ℓ} : {A : Type ℓ} → (A → Bool) → List A → Option (List A × List A)
take_hard_links is_hard_link [] = some ([], [])
take_hard_links is_hard_link (e ∷ es) =
    let rest = take_hard_links is_hard_link es in
    if is_hard_link e
    then elim es [ [] ↦ none | (next ∷ _) ↦ (rest >>= λ r. some (r.0, next ∷ r.1)) ]
    else (rest >>= λ r. some (e ∷ r.0, r.1))

-- Each is inserted at the beginning.
unfoldable pub insert_first {ℓ} : {A : Type ℓ} → List A → List A → List A
insert_first [] entries = entries
insert_first (l ∷ ls) entries = insert_first ls (l ∷ entries)

unfoldable pub links_first {ℓ} : {A : Type ℓ} → (A → Bool) → List A → Option (List A)
links_first is_hard_link entries =
    take_hard_links is_hard_link entries >>= λ r. some (insert_first r.1 r.0)
