-- ===== src/FileSystem/Changes/Told.antt =====
-- src/diff.cc: which changes the comparison of two listings tells, path by path.
use beak.Prelude.{
  ◌≡◌, ◌∙◌, refl, sym, Bool, true, false, ◌&&◌, ◌||◌, Option, none, some, [], ◌∷◌, inl, inr,
  Bool-cases, ap, Bytes, equal, equal_iff, arith,
}
use beak.Config.Tables.{Table, find}
use beak.FileSystem.Changes.{
  Action, added, Listed, compare_entry, compare_loop, removed_entry, removed_loop, diff,
}
use beak.FileSystem.Changes.Verdict.{
  has_report, verdict, HasUniquePaths, HasNoLinks, has_report-append, find-link, compare_entry-old,
  has_report-compare_entry, same_action,
}

||-false : (b : Bool) → (b || false) ≡ b
||-false true = refl
||-false false = refl

compare_loop-old :
    (old curr rest : Table Listed)
    → HasNoLinks old
    → HasNoLinks rest
    → (compare_loop old curr rest).0 ≡ old
unfolding compare_loop
compare_loop-old old curr [] h k = refl
compare_loop-old old curr ((q, new) ∷ rest) h (k, ks) =
    let alone = compare_entry-old old curr q new (find q old) k (λ o. find-link q old o h) in
    rw alone (compare_loop-old old curr rest h ks)

-- What a loop over a listing tells of a path, from what the listing has there.
told : Action → Option Listed → Option Listed → Bool
told a old none = false
told a old (some new) = verdict a old (some new)

find-same : (p q : Bytes) (m : Table Listed) → equal q p ≡ true → find q m ≡ find p m
find-same p q m e = ap (λ (r : Bytes). find r m) ((equal_iff q p).0 e)

told-next :
    (a : Action) (p q : Bytes) (old rest : Table Listed) (new : Listed)
    → find q rest ≡ none
    → (equal q p && verdict a (find q old) (some new) || told a (find p old) (find p rest))
      ≡ told a (find p old) (find p ((q, new) ∷ rest))
unfolding told find
told-next a p q old rest new h = elim (Bool-cases (equal q p)) [
  | inl e ↦
      let nothing : find p rest ≡ none = sym (find-same p q rest e) ∙ h in
      rw (e, find-same p q old e, nothing) (||-false (verdict a (find p old) (some new)))
  | inr e ↦ rw e refl
]

has_report-compare_loop :
    (a : Action) (p : Bytes) (old curr rest : Table Listed)
    → HasNoLinks old
    → HasNoLinks rest
    → HasUniquePaths rest
    → has_report a p (compare_loop old curr rest).1 ≡ told a (find p old) (find p rest)
unfolding compare_loop told find has_report
has_report-compare_loop a p old curr [] h k u = refl
has_report-compare_loop a p old curr ((q, new) ∷ rest) h (k, ks) (u, us) =
    let alone = compare_entry-old old curr q new (find q old) k (λ o. find-link q old o h) in
    let here =
      has_report-compare_entry a p q old curr new (find q old) k (λ o. find-link q old o h) in
    has_report-append a p (compare_entry old curr q new (find q old)).1 _
    ∙ rw (alone, here, has_report-compare_loop a p old curr rest h ks us)
        (told-next a p q old rest new u)

gone : Action → Option Listed → Option Listed → Bool
gone a none new = false
gone a (some old) none = verdict a (some old) none
gone a (some old) (some new) = false

has_report-removed_entry :
    (a : Action) (p q : Bytes) (file : Listed) (new : Option Listed)
    → has_report a p (removed_entry q file new) ≡ (equal q p && gone a (some file) new)
unfolding has_report removed_entry verdict gone
has_report-removed_entry a p q file none = ground arith
has_report-removed_entry a p q file (some new) = ground arith

gone-next :
    (a : Action) (p q : Bytes) (curr rest : Table Listed) (file : Listed)
    → find q rest ≡ none
    → (equal q p && gone a (some file) (find q curr) || gone a (find p rest) (find p curr))
      ≡ gone a (find p ((q, file) ∷ rest)) (find p curr)
unfolding gone find
gone-next a p q curr rest file h = elim (Bool-cases (equal q p)) [
  | inl e ↦
      let nothing : find p rest ≡ none = sym (find-same p q rest e) ∙ h in
      rw (e, find-same p q curr e, nothing) (||-false (gone a (some file) (find p curr)))
  | inr e ↦ rw e refl
]

has_report-removed_loop :
    (a : Action) (p : Bytes) (curr rest : Table Listed)
    → HasUniquePaths rest
    → has_report a p (removed_loop curr rest) ≡ gone a (find p rest) (find p curr)
unfolding removed_loop gone find has_report
has_report-removed_loop a p curr [] u = refl
has_report-removed_loop a p curr ((q, file) ∷ rest) (u, us) =
    has_report-append a p (removed_entry q file (find q curr)) (removed_loop curr rest)
    ∙ rw
        (
          has_report-removed_entry a p q file (find q curr),
          has_report-removed_loop a p curr rest us,
        )
        (gone-next a p q curr rest file u)

told-gone :
    (a : Action) (old new : Option Listed) → (told a old new || gone a old new) ≡ verdict a old new
unfolding told gone verdict
told-gone a none none = refl
told-gone a none (some new) = ||-false (same_action added a)
told-gone a (some old) none = refl
told-gone a (some old) (some new) = ||-false (verdict a (some old) (some new))

-- Of two listings without hard links, a change is reported at a path when what the two have there
-- says so: nothing and something is an addition, the reverse a removal, and two regular files that
-- differ in size or time are a change, and in their permissions a change of permissions. Nothing
-- else is reported.
pub has_report-diff :
    (a : Action) (p : Bytes) (old curr : Table Listed)
    → HasUniquePaths old
    → HasUniquePaths curr
    → HasNoLinks old
    → HasNoLinks curr
    → has_report a p (diff old curr) ≡ verdict a (find p old) (find p curr)
unfolding diff
has_report-diff a p old curr u v h k =
    has_report-append a p (compare_loop old curr curr).1 _
    ∙ rw
        (
          compare_loop-old old curr curr h k,
          has_report-compare_loop a p old curr curr h k v,
          has_report-removed_loop a p curr old u,
        )
        (told-gone a (find p old) (find p curr))
