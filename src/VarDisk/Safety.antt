-- ===== src/VarDisk/Safety.antt =====
-- When the daemon of packages/var-disk-manager may erase a device, as a property of its trace.
pub mod Outcomes
pub mod Steps
pub mod Harmless
pub mod Answers
pub mod Asking
pub mod Formatting
pub mod Opening
pub mod Unlocking
pub mod Migrating
pub mod Room
pub mod Probing
pub mod Running
use foundrix.Base.{
  ◌≡◌, refl, sym, ap, ◌∙◌, ◌⊎◌, inr, Bool, true, false, List, [], ◌∷◌, ◌++◌, append_assoc, none,
  some, Text, codes, trim, is_empty,
}
use foundrix.VarDisk.Classify.{parse_confirm}
use foundrix.VarDisk.Commands.{
  Cfg, Invocation, dev, part1, mapper_dev, blkid_call, luks_open_new_call, erases,
}
use foundrix.VarDisk.World.{
  Reply, not_spawned, lost, ended, Event, ran, looked, answered, Question, arrived, blocks, waits,
  failed, no_fuel, Step, continue, ◌>>=◌, Progress, World,
}
use foundrix.VarDisk.Host.{is_success}

-- The event stands in the trace.
abbrev pub Happened : Event → List Event → Type 0
Happened e [] = ⊥
Happened e (f ∷ t) = (f ≡ e) ⊎ Happened e t

-- A probe that ran and gave no value: it did not end well, whatever its exit code or the signal, or it
-- printed nothing but white space.
abbrev pub SaysNothing : Reply → Type 0
SaysNothing not_spawned = ⊥
SaysNothing lost = ⊥
SaysNothing (ended code out errors written) =
    (is_success code ≡ false) ⊎ (is_empty (trim out) ≡ true)

abbrev pub GaveNothing : Invocation → List Event → Type 0
GaveNothing i t = (r : Reply) × SaysNothing r × Happened (ran i r) t

-- A look found no first partition of the disk, and the probes for a partition table and a file system
-- on it gave no value. The code takes such a disk for a blank one.
abbrev pub TakenAsBlank : Cfg → Text → List Event → Type 0
TakenAsBlank cfg id t =
    Happened (looked (part1 cfg id) false) t
    × GaveNothing (blkid_call (codes "PTTYPE") (dev cfg id)) t
    × GaveNothing (blkid_call (codes "TYPE") (dev cfg id)) t

-- The new volume on the disk's partition was opened.
abbrev pub OpenedNew : Cfg → Text → List Event → Type 0
OpenedNew cfg id t =
    (secret : Text) × (out errors : Text) × Happened
      (ran (luks_open_new_call cfg (part1 cfg id) secret) (ended (some 0) out errors true)) t

-- A probe of the opened volume ended with 2, and the operator has agreed to format it.
abbrev pub AgreedEmpty : Cfg → List Event → Type 0
AgreedEmpty cfg t =
    ((out errors : Text) × (written : Bool) × Happened
        (ran (blkid_call (codes "TYPE") (mapper_dev cfg)) (ended (some 2) out errors written)) t)
    × ((luks_id answer : Text) × (parse_confirm answer ≡ some true)
        × Happened (answered (Question.format_empty luks_id cfg.id.fs_label) answer) t)

-- Why a device may be erased: it is a disk that was taken for a blank one, the partition on one, the new
-- volume that was opened on one, or an opened volume that was found empty and that the operator has agreed
-- to format.
pub data Cause (cfg : Cfg) (device : Text) (t : List Event) : Type 0 where
  blank_disk : (id : Text) → device ≡ dev cfg id → TakenAsBlank cfg id t → Cause cfg device t
  blank_partition : (id : Text) → device ≡ part1 cfg id → TakenAsBlank cfg id t → Cause cfg device t
  new_volume :
      (id : Text)
      → device ≡ mapper_dev cfg
      → TakenAsBlank cfg id t
      → OpenedNew cfg id t
      → Cause cfg device t
  agreed : device ≡ mapper_dev cfg → AgreedEmpty cfg t → Cause cfg device t

-- What a command line erases, it may erase.
abbrev pub IsAllowed : Cfg → Invocation → List Event → Type 0
IsAllowed cfg i t = (device : Text) → erases i ≡ some device → Cause cfg device t

-- Every command in the trace was allowed by what had happened before it.
abbrev pub IsSafe : Cfg → List Event → Type 0
IsSafe cfg [] = Unit
IsSafe cfg (ran i r ∷ t) = IsAllowed cfg i t × IsSafe cfg t
IsSafe cfg (looked path b ∷ t) = IsSafe cfg t
IsSafe cfg (answered q a ∷ t) = IsSafe cfg t

-- The trace goes on from an earlier one.
abbrev pub Extends : List Event → List Event → Type 0
Extends t0 t = (recent : List Event) × (t ≡ recent ++ t0)

pub Happened-Extends : (e : Event) (t0 t : List Event) → Extends t0 t → Happened e t0 → Happened e t
Happened-Extends e t0 t (recent, q) h = rw q (later recent)
  where
    later : (new : List Event) → Happened e (new ++ t0)
    later [] = h
    later (x ∷ new) = inr (later new)

pub GaveNothing-Extends :
    (i : Invocation) (t0 t : List Event) → Extends t0 t → GaveNothing i t0 → GaveNothing i t
GaveNothing-Extends i t0 t x (r, says, m) = (r, says, Happened-Extends _ t0 t x m)

pub TakenAsBlank-Extends :
    (cfg : Cfg) (id : Text) (t0 t : List Event)
    → Extends t0 t
    → TakenAsBlank cfg id t0
    → TakenAsBlank cfg id t
TakenAsBlank-Extends cfg id t0 t x (l, p, f) =
    (Happened-Extends _ t0 t x l, GaveNothing-Extends _ t0 t x p, GaveNothing-Extends _ t0 t x f)

pub OpenedNew-Extends :
    (cfg : Cfg) (id : Text) (t0 t : List Event)
    → Extends t0 t
    → OpenedNew cfg id t0
    → OpenedNew cfg id t
OpenedNew-Extends cfg id t0 t x (secret, out, errors, m) =
    (secret, out, errors, Happened-Extends _ t0 t x m)

pub AgreedEmpty-Extends :
    (cfg : Cfg) (t0 t : List Event) → Extends t0 t → AgreedEmpty cfg t0 → AgreedEmpty cfg t
AgreedEmpty-Extends cfg t0 t x ((out, errors, written, m), (luks_id, answer, agrees, n)) = (
  (out, errors, written, Happened-Extends _ t0 t x m),
  (luks_id, answer, agrees, Happened-Extends _ t0 t x n),
)

pub Extends-refl : (t : List Event) → Extends t t
Extends-refl t = ([], refl)

pub Extends-trans : (t u v : List Event) → Extends t u → Extends u v → Extends t v
Extends-trans t u v (x, p) (y, q) = (y ++ x, q ∙ ap (λ s. y ++ s) p ∙ sym (append_assoc y x t))

pub Extends-cons : (e : Event) (t0 t : List Event) → Extends t0 t → Extends t0 (e ∷ t)
Extends-cons e t0 t (x, p) = (e ∷ x, ap (◌∷◌ e) p)

-- From a safe trace that goes on from `t0`, a part of the daemon gets to such a trace, and to its end
-- with what it has learned. It does not run out of fuel.
abbrev pub Good :
    {S A : Type 0} → Cfg → List Event → (A → List Event → Type 0) → Progress S A → Type 0
Good cfg t0 Q (arrived a w) = IsSafe cfg w.trace × Extends t0 w.trace × Q a w.trace
Good cfg t0 Q (blocks w) = IsSafe cfg w.trace × Extends t0 w.trace
Good cfg t0 Q (waits w) = IsSafe cfg w.trace × Extends t0 w.trace
Good cfg t0 Q (failed e w) = IsSafe cfg w.trace × Extends t0 w.trace
Good cfg t0 Q no_fuel = ⊥

module _ {S A : Type 0} (cfg : Cfg) (t0 : List Event) where
  abbrev pub Fine : (A → List Event → Type 0) → Step S A → Type 0
  Fine Q m = (w : World S) → IsSafe cfg w.trace → Extends t0 w.trace → Good cfg t0 Q (m w)

  -- Nothing that is learned matters.
  abbrev pub Calm : Step S A → Type 0
  Calm m = Fine (λ _ _. Unit) m

  -- What follows may start from the trace that is reached.
  pub Good-rebase :
      (t1 : List Event) (Q : A → List Event → Type 0) (p : Progress S A)
      → Extends t0 t1
      → Good cfg t1 Q p
      → Good cfg t0 Q p
  Good-rebase t1 Q (arrived a w) x (s, e, q) = (s, Extends-trans t0 t1 w.trace x e, q)
  Good-rebase t1 Q (blocks w) x (s, e) = (s, Extends-trans t0 t1 w.trace x e)
  Good-rebase t1 Q (waits w) x (s, e) = (s, Extends-trans t0 t1 w.trace x e)
  Good-rebase t1 Q (failed f w) x (s, e) = (s, Extends-trans t0 t1 w.trace x e)
  Good-rebase t1 Q no_fuel x h = h

module _ {S A B : Type 0} (cfg : Cfg) (t0 : List Event) where
  pub Good-continue :
      (Q : A → List Event → Type 0) (R : B → List Event → Type 0) (f : A → Step S B)
      (p : Progress S A)
      → Good cfg t0 Q p
      → ((a : A) (w : World S)
          → IsSafe cfg w.trace
          → Extends t0 w.trace
          → Q a w.trace
          → Good cfg t0 R (f a w))
      → Good cfg t0 R (continue f p)
  Good-continue Q R f (arrived a w) (s, e, q) k = k a w s e q
  Good-continue Q R f (blocks w) h k = h
  Good-continue Q R f (waits w) h k = h
  Good-continue Q R f (failed x w) h k = h
  Good-continue Q R f no_fuel h k = h

  -- What the first step has learned is known from then on.
  pub Fine-bind :
      (Q : A → List Event → Type 0) (R : B → List Event → Type 0) (m : Step S A) (f : A → Step S B)
      → Fine cfg t0 Q m
      → ((a : A) (t : List Event) → Extends t0 t → Q a t → Fine cfg t R (f a))
      → Fine cfg t0 R (m >>= f)
  Fine-bind Q R m f h k w s e = Good-continue Q R f (m w) (h w s e) (λ a w1 s1 e1 q.
      Good-rebase cfg t0 w1.trace R (f a w1) e1 (k a w1.trace e1 q w1 s1 (Extends-refl w1.trace)))

  pub Calm-bind :
      (m : Step S A) (f : A → Step S B)
      → Calm cfg t0 m
      → ((a : A) → Calm cfg t0 (f a))
      → Calm cfg t0 (m >>= f)
  Calm-bind m f h k w s e =
      Good-continue (λ _ _. Unit) (λ _ _. Unit) f (m w) (h w s e) (λ a w1 s1 e1 q. k a w1 s1 e1)
