-- ===== src/VarDisk/Safety/Probing.antt =====
-- The enumeration and the probes: a disk that is classified as blank was taken for blank.
use foundrix.Base.{
  ℕ, zero, suc, ◌+◌, ◌==◌, ltb, leb, ◌≡◌, refl, sym, subst, inl, inr, Bool, true, false, ◌&&◌, List,
  [], ◌∷◌, Option, none, length, Text, codes,
}
use foundrix.VarDisk.Classify.{DiskClass, foreign, blank, DiskProbe, classify, is_class}
use foundrix.VarDisk.Classify.Disks.{HasDisk}
use foundrix.VarDisk.Classify.Laws.{classify_blank_iff}
use foundrix.VarDisk.Commands.{Cfg, dev, part1, blkid_call, partuuid_call}
use foundrix.VarDisk.World.{Step, Event, looked, Phase, Message, ◌>>=◌, ◌>>◌, pure, Host}
use foundrix.VarDisk.Host.{probe_value, exists}
use foundrix.VarDisk.Run.{
  detail, list_volumes, probe_part, probe, await_stable, tell_foreign, found, classify_each,
}
use foundrix.VarDisk.Safety.{
  Happened, Happened-Extends, GaveNothing, GaveNothing-Extends, TakenAsBlank, TakenAsBlank-Extends,
  Extends, Extends-trans, Fine, Calm, Fine-bind, Calm-bind,
}
use foundrix.VarDisk.Safety.Outcomes.{forget}
use foundrix.VarDisk.Safety.Steps.{done, exists-Fine, probe_value-Fine, state-Calm, pure-Fine}
use foundrix.VarDisk.Safety.Harmless.{blkid_harmless, partuuid_harmless}

-- The disks of this list that are classified as blank were taken for blank.
abbrev pub BlanksSeen : Cfg → List (Text × DiskClass) → List Event → Type 0
BlanksSeen cfg [] t = Unit
BlanksSeen cfg ((id, c) ∷ disks) t = (c ≡ blank → TakenAsBlank cfg id t) × BlanksSeen cfg disks t

BlanksSeen-Extends :
    (cfg : Cfg) (disks : List (Text × DiskClass)) (t0 t : List Event)
    → Extends t0 t
    → BlanksSeen cfg disks t0
    → BlanksSeen cfg disks t
BlanksSeen-Extends cfg [] t0 t e seen = tt
BlanksSeen-Extends cfg ((id, c) ∷ disks) t0 t e (s, seen) =
    (λ q. TakenAsBlank-Extends cfg id t0 t e (s q), BlanksSeen-Extends cfg disks t0 t e seen)

pub BlanksSeen-HasDisk :
    (cfg : Cfg) (id : Text) (disks : List (Text × DiskClass)) (t : List Event)
    → BlanksSeen cfg disks t
    → HasDisk id blank disks
    → TakenAsBlank cfg id t
BlanksSeen-HasDisk cfg id [] t seen m = absurd m
BlanksSeen-HasDisk cfg id ((j, c) ∷ disks) t (s, seen) (inl (q, e)) =
    subst (λ x. TakenAsBlank cfg x t) q (s e)
BlanksSeen-HasDisk cfg id ((j, c) ∷ disks) t (s, seen) (inr m) =
    BlanksSeen-HasDisk cfg id disks t seen m

module _ {S : Type 0} (h : Host S) (cfg : Cfg) where
  abbrev Found : (tag path : Text) → Option Text → List Event → Type 0
  Found tag path v t = v ≡ none → GaveNothing (blkid_call tag path) t

  probe_part-Calm : (b : Bool) (p1 : Text) (t0 : List Event) → Calm cfg t0 (probe_part h cfg b p1)
  unfolding probe_part
  probe_part-Calm false p1 t0 = λ w s e. (s, e, tt)
  probe_part-Calm true p1 t0 =
      Calm-bind cfg t0 (probe_value h (blkid_call (codes "TYPE") p1))
        (λ fstype. (probe_value h (partuuid_call p1) >>= λ partuuid. pure (fstype, partuuid)))
        (forget h cfg t0 (Found (codes "TYPE") p1) (probe_value h (blkid_call (codes "TYPE") p1))
          (probe_value-Fine h cfg t0 _ (blkid_harmless (codes "TYPE") p1)))
        (λ fstype.
          Calm-bind cfg t0 (probe_value h (partuuid_call p1)) (λ partuuid. pure (fstype, partuuid))
            (forget h cfg t0 (λ v t. v ≡ none → GaveNothing (partuuid_call p1) t)
              (probe_value h (partuuid_call p1))
              (probe_value-Fine h cfg t0 _ (partuuid_harmless p1)))
            (λ partuuid w s e. (s, e, tt)))

  -- A disk that a probe classifies as blank was taken for blank.
  abbrev Probed : Text → DiskProbe → List Event → Type 0
  Probed id p t =
      (p.id ≡ id)
      × ((p.has_part1 ≡ false) × (p.disk_pttype ≡ none) × (p.disk_fstype ≡ none)
          → TakenAsBlank cfg id t)

  probe-Fine : (id : Text) (t0 : List Event) → Fine cfg t0 (Probed id) (probe h cfg id)
  unfolding probe
  probe-Fine id t0 =
      Fine-bind cfg t0 (λ b t. Happened (looked (part1 cfg id) b) t) (Probed id)
        (exists h (part1 cfg id)) after_look (exists-Fine h cfg t0 (part1 cfg id))
        (λ b t1 e1 l.
          Fine-bind cfg t1 (λ _ _. Unit) (Probed id) (probe_part h cfg b (part1 cfg id))
            (after_part b) (probe_part-Calm b (part1 cfg id) t1)
            (λ part t2 e2 _.
              Fine-bind cfg t2 (Found (codes "PTTYPE") (dev cfg id)) (Probed id)
                (probe_value h (blkid_call (codes "PTTYPE") (dev cfg id))) (after_pttype b part)
                (probe_value-Fine h cfg t2 _ (blkid_harmless (codes "PTTYPE") (dev cfg id)))
                (λ pttype t3 e3 p.
                  Fine-bind cfg t3 (Found (codes "TYPE") (dev cfg id)) (Probed id)
                    (probe_value h (blkid_call (codes "TYPE") (dev cfg id)))
                    (after_fstype b part pttype)
                    (probe_value-Fine h cfg t3 _ (blkid_harmless (codes "TYPE") (dev cfg id)))
                    (λ fstype t4 e4 f.
                      pure-Fine cfg t4 (Probed id) (made b part pttype fstype) (λ t e. (
                        refl,
                        λ (not_there, no_table, no_fs). (
                          Happened-Extends _ t1 t
                              (Extends-trans t1 t2 t e2
                                (Extends-trans t2 t3 t e3 (Extends-trans t3 t4 t e4 e)))
                              (subst (λ x. Happened (looked (part1 cfg id) x) t1) not_there l),
                          GaveNothing-Extends _ t3 t (Extends-trans t3 t4 t e4 e) (p no_table),
                          GaveNothing-Extends _ t4 t e (f no_fs),
                        ),
                      ))))))
    where
      made : Bool → Option Text × Option Text → Option Text → Option Text → DiskProbe
      made b part pttype fstype = record {
        id = id;
        has_part1 = b;
        part_fstype = part.0;
        part_partuuid = part.1;
        disk_pttype = pttype;
        disk_fstype = fstype;
      }

      after_fstype : Bool → Option Text × Option Text → Option Text → Option Text → Step S DiskProbe
      after_fstype b part pttype fstype = pure (made b part pttype fstype)

      after_pttype : Bool → Option Text × Option Text → Option Text → Step S DiskProbe
      after_pttype b part pttype =
          probe_value h (blkid_call (codes "TYPE") (dev cfg id)) >>= after_fstype b part pttype

      after_part : Bool → Option Text × Option Text → Step S DiskProbe
      after_part b part =
          probe_value h (blkid_call (codes "PTTYPE") (dev cfg id)) >>= after_pttype b part

      after_look : Bool → Step S DiskProbe
      after_look b = probe_part h cfg b (part1 cfg id) >>= after_part b

  tell_foreign-Calm :
      (b : Bool) (p : DiskProbe) (t0 : List Event) → Calm cfg t0 (tell_foreign h cfg b p)
  unfolding tell_foreign
  tell_foreign-Calm true p t0 =
      state-Calm cfg t0 Phase.classify_phase (Message.ignoring p.id (detail p))
  tell_foreign-Calm false p t0 = done cfg t0

  -- Each disk that is classified as blank was taken for blank.
  pub classify_each-Fine :
      (ids : List Text) (t0 : List Event)
      → Fine cfg t0 (λ c t. BlanksSeen cfg c.1 t) (classify_each h cfg ids)
  unfolding classify_each
  classify_each-Fine [] t0 = λ w s e. (s, e, tt)
  classify_each-Fine (id ∷ ids) t0 =
      Fine-bind cfg t0 (Probed id) (λ c t. BlanksSeen cfg c.1 t) (probe h cfg id)
        (λ p. (told p >> classify_each h cfg ids >>= λ rest. pure (found h cfg p rest)))
        (probe-Fine id t0)
        (λ p t1 e1 (same, seen).
          Fine-bind cfg t1 (λ c t. BlanksSeen cfg c.1 t) (λ c t. BlanksSeen cfg c.1 t)
            (told p >> classify_each h cfg ids) (λ rest. pure (found h cfg p rest))
            (Fine-bind cfg t1 (λ _ _. Unit) (λ c t. BlanksSeen cfg c.1 t) (told p)
              (λ _. classify_each h cfg ids)
              (tell_foreign-Calm (is_class foreign (classify p cfg.id.luks_partuuid)) p t1)
              (λ _ t2 e2 _. classify_each-Fine ids t2))
            (λ rest t3 e3 rest_seen.
              pure-Fine cfg t3 (λ c t. BlanksSeen cfg c.1 t) (found h cfg p rest)
                (λ t e. (
                  λ q.
                      subst (λ x. TakenAsBlank cfg x t) (sym same)
                        (TakenAsBlank-Extends cfg id t1 t (Extends-trans t1 t3 t e3 e)
                          (seen ((classify_blank_iff p cfg.id.luks_partuuid).0 q))),
                  BlanksSeen-Extends cfg rest.1 t3 t e rest_seen,
                ))))
    where
      told : DiskProbe → Step S (Unit {0})
      told p = tell_foreign h cfg (is_class foreign (classify p cfg.id.luks_partuuid)) p

  pub list_volumes-Calm : (t0 : List Event) → Calm cfg t0 (list_volumes h cfg)
  unfolding list_volumes
  list_volumes-Calm t0 w s e = (s, e, tt)

  pub await_stable-Calm :
      (n stable prev : ℕ) (t0 : List Event) → Calm cfg t0 (await_stable h cfg n stable prev)
  unfolding await_stable
  await_stable-Calm zero stable prev t0 = done cfg t0
  await_stable-Calm (suc n) stable prev t0 =
      Calm-bind cfg t0 (list_volumes h cfg) _ (list_volumes-Calm t0) (λ volumes.
        by (length volumes) (ltb 0 (length volumes) && length volumes == prev) (leb 5 (stable + 1))
          (await_stable-Calm n (stable + 1) (length volumes) t0)
          (await_stable-Calm n 0 (length volumes) t0))
    where
      by :
          (m : ℕ) (b c : Bool)
          → Calm cfg t0 (await_stable h cfg n (stable + 1) m)
          → Calm cfg t0 (await_stable h cfg n 0 m)
          → Calm cfg t0 (elim b as (λ x. Step S (Unit {0})) [
            | true ↦ elim c as (λ x. Step S (Unit {0})) [
              | true ↦ pure tt
              | false ↦ await_stable h cfg n (stable + 1) m
            ]
            | false ↦ await_stable h cfg n 0 m
          ])
      by m true true k l = done cfg t0
      by m true false k l = k
      by m false c k l = l
