-- ===== src/VarDisk/Classify/Laws.antt =====
-- What the plan rests on: the disks that it names are there and are the only ones of their class.
use foundrix.Base.{
  ℕ, Reordered, unchanged, behind, exchanged, followed, subst, if-cases, if◌then◌else◌, suc, ◌≤◌,
  ◌≡◌, refl, sym, ap, ◌∙◌, inl, inr, ◌↔◌, Bool, true, false, List, [], ◌∷◌, Option, none, some,
  arith, length, ltb, Text,
}
use foundrix.VarDisk.Classify.{
  DiskClass, luks, legacy, blank, is_class, ids_of, first, BlockReason, multiple, still_attached,
  Plan, unlock, boot_legacy, migrate, provision, block, no_disks, plan_single, plan_lists, plan,
  DiskProbe, classify, empty, mapper_fs_from_blkid,
}
use foundrix.VarDisk.Classify.Disks.{HasDisk, In, ids_of-HasDisk, HasDisk-ids_of, IsOnly, HasNo}

abbrev pub Justified : List (Text × DiskClass) → Plan → Type 0
Justified disks (unlock l) = IsOnly l luks disks × HasNo legacy disks
Justified disks (boot_legacy old) = IsOnly old legacy disks × HasNo luks disks × HasNo blank disks
Justified disks (migrate old new) =
    IsOnly old legacy disks × IsOnly new blank disks × HasNo luks disks
Justified disks (provision new) = IsOnly new blank disks × HasNo luks disks × HasNo legacy disks
Justified disks (block (multiple k ids)) = (ids ≡ ids_of k disks) × (2 ≤ length ids)
Justified disks (block (still_attached old l)) = HasDisk old legacy disks × HasDisk l luks disks
Justified disks no_disks = HasNo luks disks × HasNo legacy disks × HasNo blank disks

two_entries : (n : ℕ) → ¬ (ltb 1 (suc (suc n)) ≡ false)
two_entries n h = ground arith

first-IsOnly :
    (k : DiskClass) (disks : List (Text × DiskClass)) (id : Text) (ids : List Text)
    → ids_of k disks ≡ id ∷ ids
    → ltb 1 (length (ids_of k disks)) ≡ false
    → IsOnly id k disks
first-IsOnly k disks id [] e short = (
  ids_of-HasDisk id k disks (rw e (inl refl)),
  λ j h. only j (subst (In j) e (HasDisk-ids_of j k disks h)),
)
  where
    only : (j : Text) → In j (id ∷ []) → j ≡ id
    only j (inl q) = sym q
    only j (inr m) = absurd m
first-IsOnly k disks id (j ∷ ids) e short =
    absurd (two_entries (length ids) (subst (λ l. ltb 1 (length l) ≡ false) e short))

none_of : (k : DiskClass) (disks : List (Text × DiskClass)) → ids_of k disks ≡ [] → HasNo k disks
none_of k disks e j h = subst (In j) e (HasDisk-ids_of j k disks h)

-- The three lists of a set of disks.
module _ (disks : List (Text × DiskClass)) where
  single-Justified :
      (ls os bs : List Text)
      → ids_of luks disks ≡ ls
      → ids_of legacy disks ≡ os
      → ids_of blank disks ≡ bs
      → ltb 1 (length (ids_of luks disks)) ≡ false
      → ltb 1 (length (ids_of legacy disks)) ≡ false
      → ltb 1 (length (ids_of blank disks)) ≡ false
      → Justified disks (plan_single (first ls) (first os) (first bs))
  unfolding plan_single
  single-Justified [] [] [] el eo eb sl so sb =
      (none_of luks disks el, none_of legacy disks eo, none_of blank disks eb)
  single-Justified [] [] (b ∷ bs) el eo eb sl so sb =
      (first-IsOnly blank disks b bs eb sb, none_of luks disks el, none_of legacy disks eo)
  single-Justified [] (o ∷ os) [] el eo eb sl so sb =
      (first-IsOnly legacy disks o os eo so, none_of luks disks el, none_of blank disks eb)
  single-Justified [] (o ∷ os) (b ∷ bs) el eo eb sl so sb = (
    first-IsOnly legacy disks o os eo so,
    first-IsOnly blank disks b bs eb sb,
    none_of luks disks el,
  )
  single-Justified (l ∷ ls) [] bs el eo eb sl so sb =
      (first-IsOnly luks disks l ls el sl, none_of legacy disks eo)
  single-Justified (l ∷ ls) (o ∷ os) bs el eo eb sl so sb = (
    ids_of-HasDisk o legacy disks (rw eo (inl refl)),
    ids_of-HasDisk l luks disks (rw el (inl refl)),
  )

-- Every plan is justified by the disks: a disk that it names is there and the only one of its class,
-- the classes that would forbid it are absent, and a block names the disks that are too many.
pub plan-Justified : (disks : List (Text × DiskClass)) → Justified disks (plan disks)
unfolding plan plan_lists
plan-Justified disks =
    if-cases (Justified disks) (ltb 1 (length (ids_of luks disks))) _ _ (λ h. (refl, ground arith))
      (λ sl.
        if-cases (Justified disks) (ltb 1 (length (ids_of legacy disks))) _ _
          (λ h. (refl, ground arith))
          (λ so.
            if-cases (Justified disks) (ltb 1 (length (ids_of blank disks))) _ _
              (λ h. (refl, ground arith))
              (λ sb. single-Justified disks _ _ _ refl refl refl sl so sb)))

-- Two plans do the same, where any two blocks do.
abbrev pub SamePlan : Plan → Plan → Type 0
SamePlan (block r) (block s) = Unit
SamePlan p q = p ≡ q

ids_of-Reordered :
    (k : DiskClass) {xs ys : List (Text × DiskClass)}
    → Reordered xs ys
    → Reordered (ids_of k xs) (ids_of k ys)
unfolding ids_of
ids_of-Reordered k (unchanged xs) = unchanged (ids_of k xs)
ids_of-Reordered k (behind {xs} {ys} (i, c) p) = by (is_class k c) (ids_of-Reordered k p)
  where
    by :
        (b : Bool)
        → Reordered (ids_of k xs) (ids_of k ys)
        → Reordered
            (if b then i ∷ ids_of k xs else ids_of k xs)
            (if b then i ∷ ids_of k ys else ids_of k ys)
    by true q = behind i q
    by false q = q
ids_of-Reordered k (exchanged (i, c) (j, d) xs) = by (is_class k c) (is_class k d)
  where
    by :
        (b e : Bool)
        → Reordered
            (if b
              then i ∷ (if e then j ∷ ids_of k xs else ids_of k xs)
              else (if e then j ∷ ids_of k xs else ids_of k xs))
            (if e
              then j ∷ (if b then i ∷ ids_of k xs else ids_of k xs)
              else (if b then i ∷ ids_of k xs else ids_of k xs))
    by true true = exchanged i j (ids_of k xs)
    by true false = unchanged (i ∷ ids_of k xs)
    by false true = unchanged (j ∷ ids_of k xs)
    by false false = unchanged (ids_of k xs)
ids_of-Reordered k (followed p q) = followed (ids_of-Reordered k p) (ids_of-Reordered k q)

-- Reordered lists are as long, and are the same if they have one entry or none.
abbrev Alike : List Text → List Text → Type 0
Alike xs ys = (length xs ≡ length ys) × (ltb 1 (length xs) ≡ false → xs ≡ ys)

Reordered-Alike : {xs ys : List Text} → Reordered xs ys → Alike xs ys
Reordered-Alike (unchanged xs) = (refl, λ h. refl)
Reordered-Alike (behind x p) = (omega (arith, (Reordered-Alike p).0), by _ _ p (Reordered-Alike p))
  where
    by :
        (xs ys : List Text)
        → Reordered xs ys
        → Alike xs ys
        → ltb 1 (suc (length xs)) ≡ false
        → x ∷ xs ≡ x ∷ ys
    by xs ys q a h = ap (◌∷◌ x) (a.1 (ground arith))
Reordered-Alike (exchanged x y xs) = (refl, λ h. ground arith)
Reordered-Alike (followed p q) =
    let a = Reordered-Alike p in
    let b = Reordered-Alike q in (a.0 ∙ b.0, λ h. a.1 h ∙ b.1 (rw (sym a.0) h))

SamePlan-eq : (p q : Plan) → p ≡ q → SamePlan p q
SamePlan-eq (unlock l) q e = e
SamePlan-eq (boot_legacy o) q e = e
SamePlan-eq (migrate o n) q e = e
SamePlan-eq (provision n) q e = e
SamePlan-eq no_disks q e = e
SamePlan-eq (block r) (block s) e = tt
SamePlan-eq (block r) (unlock l) e = e
SamePlan-eq (block r) (boot_legacy o) e = e
SamePlan-eq (block r) (migrate o n) e = e
SamePlan-eq (block r) (provision n) e = e
SamePlan-eq (block r) no_disks e = e

-- One guard of the plan, on two sides.
guard-SamePlan :
    (ls ms : List Text) (r s : BlockReason) (p q : Plan)
    → Alike ls ms
    → (ls ≡ ms → SamePlan p q)
    → SamePlan (if ltb 1 (length ls) then block r else p) (if ltb 1 (length ms) then block s else q)
guard-SamePlan ls ms r s p q a k = by (ltb 1 (length ls)) refl
  where
    by :
        (b : Bool)
        → ltb 1 (length ls) ≡ b
        → SamePlan (if b then block r else p) (if ltb 1 (length ms) then block s else q)
    by true e = rw (sym a.0, e) tt
    by false e = rw (sym a.0, e) (k (a.1 e))

-- The order in which the disks are listed does not matter: the plan is the same, or it is a block in
-- either order.
pub plan-Reordered :
    {xs ys : List (Text × DiskClass)} → Reordered xs ys → SamePlan (plan xs) (plan ys)
unfolding plan plan_lists
plan-Reordered {xs} {ys} p = guard-SamePlan _ _ _ _ _ _ (alike luks) (λ el.
    guard-SamePlan _ _ _ _ _ _ (alike legacy) (λ eo.
      guard-SamePlan _ _ _ _ _ _ (alike blank) (λ eb. SamePlan-eq _ _ (rw (el, eo, eb) refl))))
  where
    alike : (k : DiskClass) → Alike (ids_of k xs) (ids_of k ys)
    alike k = Reordered-Alike (ids_of-Reordered k p)

-- A disk is blank exactly if it has no first partition, no partition table and no file system.
pub classify_blank_iff :
    (p : DiskProbe) (u : Text)
    → (classify p u ≡ blank)
      ↔ ((p.has_part1 ≡ false) × (p.disk_pttype ≡ none) × (p.disk_fstype ≡ none))
unfolding classify
classify_blank_iff p u = ground arith

-- A probe of the opened volume counts as empty exactly if it ended with 2.
pub mapper_fs_empty_iff :
    (exit : Option ℕ) (stdout : Text) → (mapper_fs_from_blkid exit stdout ≡ empty) ↔ (exit ≡ some 2)
unfolding mapper_fs_from_blkid
mapper_fs_empty_iff exit stdout = ground arith
