-- ===== src/VarDisk/Classify/Disks.antt =====
-- The disks of a class, and the identifiers that the plan collects of them.
use foundrix.Base.{if◌then◌else◌, ◌≡◌, refl, ◌⊎◌, inl, inr, Bool, true, false, List, [], ◌∷◌, Text}
use foundrix.VarDisk.Classify.{DiskClass, luks, legacy, blank, foreign, is_class, ids_of}

-- The disk of this id and class is in the list.
abbrev pub HasDisk : Text → DiskClass → List (Text × DiskClass) → Type 0
HasDisk id k [] = ⊥
HasDisk id k ((j, c) ∷ disks) = ((j ≡ id) × (c ≡ k)) ⊎ HasDisk id k disks

abbrev pub In : Text → List Text → Type 0
In id [] = ⊥
In id (j ∷ ids) = (j ≡ id) ⊎ In id ids

is_class-eq : (k c : DiskClass) → is_class k c ≡ true → c ≡ k
is_class-eq luks luks h = refl
is_class-eq legacy legacy h = refl
is_class-eq blank blank h = refl
is_class-eq foreign foreign h = refl
is_class-eq luks legacy h = cc
is_class-eq luks blank h = cc
is_class-eq luks foreign h = cc
is_class-eq legacy luks h = cc
is_class-eq legacy blank h = cc
is_class-eq legacy foreign h = cc
is_class-eq blank luks h = cc
is_class-eq blank legacy h = cc
is_class-eq blank foreign h = cc
is_class-eq foreign luks h = cc
is_class-eq foreign legacy h = cc
is_class-eq foreign blank h = cc

is_class_refl : (k : DiskClass) → is_class k k ≡ true
is_class_refl luks = refl
is_class_refl legacy = refl
is_class_refl blank = refl
is_class_refl foreign = refl

pub ids_of-HasDisk :
    (id : Text) (k : DiskClass) (disks : List (Text × DiskClass))
    → In id (ids_of k disks)
    → HasDisk id k disks
unfolding ids_of
ids_of-HasDisk id k [] h = h
ids_of-HasDisk id k ((j, c) ∷ disks) h = by (is_class k c) refl h (ids_of-HasDisk id k disks)
  where
    by :
        (b : Bool)
        → is_class k c ≡ b
        → In id (if b then j ∷ ids_of k disks else ids_of k disks)
        → (In id (ids_of k disks) → HasDisk id k disks)
        → ((j ≡ id) × (c ≡ k)) ⊎ HasDisk id k disks
    by true e (inl q) ih = inl (q, is_class-eq k c e)
    by true e (inr m) ih = inr (ih m)
    by false e m ih = inr (ih m)

pub HasDisk-ids_of :
    (id : Text) (k : DiskClass) (disks : List (Text × DiskClass))
    → HasDisk id k disks
    → In id (ids_of k disks)
unfolding ids_of
HasDisk-ids_of id k [] h = h
HasDisk-ids_of id k ((j, c) ∷ disks) (inl (q, e)) = rw (e, is_class_refl k) (inl q)
HasDisk-ids_of id k ((j, c) ∷ disks) (inr m) = by (is_class k c) (HasDisk-ids_of id k disks m)
  where
    by :
        (b : Bool)
        → In id (ids_of k disks)
        → In id (if b then j ∷ ids_of k disks else ids_of k disks)
    by true i = inr i
    by false i = i

-- The disk is the only one of its class.
abbrev pub IsOnly : Text → DiskClass → List (Text × DiskClass) → Type 0
IsOnly id k disks = HasDisk id k disks × ((j : Text) → HasDisk j k disks → j ≡ id)

abbrev pub HasNo : DiskClass → List (Text × DiskClass) → Type 0
HasNo k disks = (j : Text) → ¬ HasDisk j k disks

-- What must hold of the disks for each plan.
