-- ===== src/FileSystem/Changes/Verdict.antt =====
-- src/diff.cc: what a change of a path is, and which changes one round of the comparison tells.
use beak.Prelude.{
  ◌≡◌, ◌∙◌, refl, Bool, true, false, not, ◌&&◌, ◌||◌, Option, none, some, List, [], ◌∷◌, ◌++◌, inl,
  inr, Bool-cases, ap, subst, Bytes, equal, All, arith, some_inj,
}
use beak.Config.Tables.{Table, find}
use beak.FileSystem.{same_permissions, same_size, same_mtime}
use beak.FileSystem.Changes.{
  Action, no_change, changed, permission, added, removed, Listed, Report, is_regular_file,
  follow_new_link, follow_old_link, compare_files, compare_stats, compare_entry,
}

abbrev pub same_action : Action → Action → Bool
same_action no_change no_change = true
same_action changed changed = true
same_action permission permission = true
same_action added added = true
same_action removed removed = true
same_action _ _ = false

-- Is there a report of the change at the path?
unfoldable pub has_report : Action → Bytes → List Report → Bool
has_report a p [] = false
has_report a p (r ∷ rs) = same_action r.action a && equal r.path p || has_report a p rs

-- The change of a path, from what the two listings have there.
unfoldable pub verdict : Action → Option Listed → Option Listed → Bool
verdict a none none = false
verdict a none (some new) = same_action added a
verdict a (some old) none = same_action removed a
verdict a (some old) (some new) =
    is_regular_file new.stat
    && (same_action changed a
          && (not (same_size new.stat old.stat) || not (same_mtime new.stat old.stat))
        || same_action permission a && not (same_permissions new.stat old.stat))

-- A path stands once in a listing.
abbrev pub HasUniquePaths : Table Listed → Type 0
HasUniquePaths [] = Unit
HasUniquePaths ((p, l) ∷ m) = (find p m ≡ none) × HasUniquePaths m

abbrev pub HasNoLinks : Table Listed → Type 0
HasNoLinks = All (λ (e : Bytes × Listed). e.1.link ≡ none)

pub has_report-append :
    (a : Action) (p : Bytes) (rs ss : List Report)
    → has_report a p (rs ++ ss) ≡ (has_report a p rs || has_report a p ss)
unfolding has_report
has_report-append a p [] ss = refl
has_report-append a p (r ∷ rs) ss = ground (arith, has_report-append a p rs ss)

has_report-compare_stats :
    (a : Action) (p q : Bytes) (new old : Listed)
    → is_regular_file new.stat ≡ true
    → has_report a p (compare_stats q new old) ≡ (equal q p && verdict a (some old) (some new))
unfolding has_report compare_stats verdict
has_report-compare_stats a p q new old h = ground arith

pub find-link :
    (p : Bytes) (m : Table Listed) (l : Listed) → HasNoLinks m → find p m ≡ some l → l.link ≡ none
unfolding find
find-link p [] l h e = absurd (cc)
find-link p ((q, k) ∷ m) l (h, hs) e = elim (Bool-cases (equal q p)) [
  | inl same ↦ subst (λ (x : Listed). x.link ≡ none) (some_inj (rw same at e)) h
  | inr other ↦ find-link p m l hs (rw other at e)
]

has_report-added :
    (a : Action) (p q : Bytes) (new : Listed)
    → has_report a p (record { action = added; path = q; file = new } ∷ [])
      ≡ (equal q p && verdict a none (some new))
unfolding has_report verdict
has_report-added a p q new = ground arith

has_report-other :
    (a : Action) (p q : Bytes) (new o : Listed)
    → is_regular_file new.stat ≡ false
    → has_report a p [] ≡ (equal q p && verdict a (some o) (some new))
unfolding has_report verdict
has_report-other a p q new o h = ground arith

compare_files-NoLinks :
    (old curr : Table Listed) (q : Bytes) (new o : Listed)
    → new.link ≡ none
    → o.link ≡ none
    → compare_files old curr q new o ≡ (old, compare_stats q new o)
unfolding compare_files follow_new_link follow_old_link
compare_files-NoLinks old curr q new o h k = rw (h, k) refl

-- A round leaves the old listing alone, and tells the changes of its own path.
pub compare_entry-old :
    (old curr : Table Listed) (q : Bytes) (new : Listed) (found : Option Listed)
    → new.link ≡ none
    → ((o : Listed) → found ≡ some o → o.link ≡ none)
    → (compare_entry old curr q new found).0 ≡ old
unfolding compare_entry
compare_entry-old old curr q new none h k = refl
compare_entry-old old curr q new (some o) h k = elim (Bool-cases (is_regular_file new.stat)) [
  | inl reg ↦ rw reg (ap (λ r. r.0) (compare_files-NoLinks old curr q new o h (k o refl)))
  | inr other ↦ rw other refl
]

pub has_report-compare_entry :
    (a : Action) (p q : Bytes) (old curr : Table Listed) (new : Listed) (found : Option Listed)
    → new.link ≡ none
    → ((o : Listed) → found ≡ some o → o.link ≡ none)
    → has_report a p (compare_entry old curr q new found).1
      ≡ (equal q p && verdict a found (some new))
unfolding compare_entry
has_report-compare_entry a p q old curr new none h k = has_report-added a p q new
has_report-compare_entry a p q old curr new (some o) h k =
    elim (Bool-cases (is_regular_file new.stat)) [
      | inl reg ↦ rw reg (
          ap (λ (r : Table Listed × List Report). has_report a p r.1)
            (compare_files-NoLinks old curr q new o h (k o refl))
          ∙ has_report-compare_stats a p q new o reg)
      | inr other ↦ rw other (has_report-other a p q new o other)
    ]
