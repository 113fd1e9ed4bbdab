-- ===== src/VarDisk/Safety/Running.antt =====
-- The whole run: the disks that the plan formats are those that the probes took for blank.
use foundrix.Base.{
  ◌≡◌, refl, if◌then◌else◌, Bool, true, false, List, [], ◌∷◌, ◌++◌, Option, none, some, Text, codes,
}
use foundrix.VarDisk.Classify.{DiskClass, Plan, plan, split_prefix_glob}
use foundrix.VarDisk.Classify.Laws.{Justified, plan-Justified}
use foundrix.VarDisk.Commands.{Cfg}
use foundrix.VarDisk.World.{
  Step, arrived, blocks, waits, failed, no_fuel, Event, Failure, Phase, Message, Reason, ◌>>=◌,
  ◌>>◌, pure, Host, World, Progress,
}
use foundrix.VarDisk.Host.{mutate, state, settle, exists, create_dir_all}
use foundrix.VarDisk.Run.{
  Cli, cfg_of, required_tools, find_tool, require_tool, check_tools, bind_socket, list_volumes,
  await_stable, Classified, classify_each, follow, show_disks, manage, with_glob, run,
}
use foundrix.VarDisk.Safety.{IsSafe, Good, Calm, Fine-bind, Calm-bind}
use foundrix.VarDisk.Safety.Steps.{
  done, exists-Calm, settle-Calm, create_dir_all-Calm, state-Calm, block_forever-Calm, pure-Fine,
  fail-Fine,
}
use foundrix.VarDisk.Safety.Formatting.{provision-Calm}
use foundrix.VarDisk.Safety.Opening.{ensure_label-Calm}
use foundrix.VarDisk.Safety.Unlocking.{unlock-Calm}
use foundrix.VarDisk.Safety.Migrating.{migrate-Calm}
use foundrix.VarDisk.Safety.Probing.{
  BlanksSeen, BlanksSeen-HasDisk, classify_each-Fine, list_volumes-Calm, await_stable-Calm,
}

module _ {S : Type 0} (h : Host S) (cfg : Cfg) where
  -- What the plan erases was taken for blank.
  follow-Calm :
      (disks : List (Text × DiskClass)) (p : Plan) (t0 : List Event)
      → Justified disks p
      → BlanksSeen cfg disks t0
      → Calm cfg t0 (follow h cfg p)
  unfolding follow
  follow-Calm disks (Plan.unlock luks) t0 j seen = unlock-Calm h cfg luks t0
  follow-Calm disks (Plan.boot_legacy legacy) t0 j seen = ensure_label-Calm h cfg t0 legacy
  follow-Calm disks (Plan.migrate legacy new) t0 (only_old, only_new, no_luks) seen =
      migrate-Calm h cfg t0 legacy new (BlanksSeen-HasDisk cfg new disks t0 seen only_new.0)
  follow-Calm disks (Plan.provision new) t0 (only_new, no_luks, no_legacy) seen =
      provision-Calm h cfg new t0 (BlanksSeen-HasDisk cfg new disks t0 seen only_new.0)
  follow-Calm disks (Plan.block reason) t0 j seen =
      block_forever-Calm cfg t0 (Unit {0}) (Reason.planned reason)
  follow-Calm disks Plan.no_disks t0 j seen =
      fail-Fine cfg t0 (Unit {0}) (λ _ _. Unit) Failure.no_volume

  pub manage-Calm : (t0 : List Event) → Calm cfg t0 (manage h cfg)
  unfolding manage mutate
  manage-Calm t0 =
      Calm-bind cfg t0 (state Phase.enumerate_phase Message.waiting_for_volumes) _
        (state-Calm cfg t0 Phase.enumerate_phase Message.waiting_for_volumes)
        (λ _. Calm-bind cfg t0 (settle h) _ (settle-Calm h cfg t0) (λ _.
          Calm-bind cfg t0 (await_stable h cfg 90 0 0) _ (await_stable-Calm h cfg 90 0 0 t0) (λ _.
            Calm-bind cfg t0 (state Phase.classify_phase Message.classifying) _
              (state-Calm cfg t0 Phase.classify_phase Message.classifying)
              (λ _.
                Calm-bind cfg t0 (list_volumes h cfg) dispatch (list_volumes-Calm h cfg t0)
                  (λ ids. dispatch-Calm ids)))))
    where
      planned : Classified h cfg → Step S (Unit {0})
      planned c = show_disks h cfg c.0 >> follow h cfg (plan c.1)

      dispatch : List Text → Step S (Unit {0})
      dispatch ids = classify_each h cfg ids >>= planned

      dispatch-Calm : (ids : List Text) → Calm cfg t0 (dispatch ids)
      dispatch-Calm ids =
          Fine-bind cfg t0 (λ c t. BlanksSeen cfg c.1 t) (λ _ _. Unit) (classify_each h cfg ids)
            planned (classify_each-Fine h cfg ids t0)
            (λ c t e seen w s f.
              follow-Calm c.1 (plan c.1) t (plan-Justified c.1) seen
                (mutate (λ x. record x { disks = c.0 }) w) s f)

module _ {S : Type 0} (h : Host S) (cfg : Cfg) where
  find_tool-Calm :
      (tool : Text) (dirs : List Text) (t0 : List Event) → Calm cfg t0 (find_tool h tool dirs)
  unfolding find_tool
  find_tool-Calm tool [] t0 = pure-Fine cfg t0 (λ _ _. Unit) false (λ t e. tt)
  find_tool-Calm tool (d ∷ dirs) t0 =
      Calm-bind cfg t0 (exists h (d ++ codes "/" ++ tool)) _
        (exists-Calm h cfg t0 (d ++ codes "/" ++ tool)) (by (find_tool-Calm tool dirs t0))
    where
      by :
          Calm cfg t0 (find_tool h tool dirs)
          → (b : Bool)
          → Calm cfg t0
              (elim b as (λ x. Step S Bool) [ true ↦ pure true | false ↦ find_tool h tool dirs ])
      by k true = pure-Fine cfg t0 (λ _ _. Unit) true (λ t e. tt)
      by k false = k

  require_tool-Calm :
      (tool : Text) (b : Bool) (t0 : List Event) → Calm cfg t0 (require_tool h tool b)
  require_tool-Calm tool true t0 = done cfg t0
  require_tool-Calm tool false t0 =
      fail-Fine cfg t0 (Unit {0}) (λ _ _. Unit) (Failure.tool_missing tool)

  check_tools-Calm :
      (dirs tools : List Text) (t0 : List Event) → Calm cfg t0 (check_tools h dirs tools)
  unfolding check_tools
  check_tools-Calm dirs [] t0 = done cfg t0
  check_tools-Calm dirs (tool ∷ tools) t0 =
      Calm-bind cfg t0 (find_tool h tool dirs >>= require_tool h tool)
        (λ _. check_tools h dirs tools)
        (Calm-bind cfg t0 (find_tool h tool dirs) (require_tool h tool)
          (find_tool-Calm tool dirs t0) (λ b. require_tool-Calm tool b t0))
        (λ _. check_tools-Calm dirs tools t0)

  bind_socket-Calm : (t0 : List Event) → Calm cfg t0 (bind_socket h)
  unfolding bind_socket
  bind_socket-Calm t0 w s e = by (h.bind w.host).0
    where
      by :
          (b : Bool)
          → Good cfg t0
              (λ _ _. Unit)
              (if b
                then arrived tt (record w { host = (h.bind w.host).1 })
                else failed
                    (Failure.io_error (codes "binding control socket"))
                    (record w { host = (h.bind w.host).1 }))
      by true = (s, e, tt)
      by false = (s, e)

-- How far a run has got, and that its trace is safe.
abbrev pub IsSafeRun : {S A : Type 0} → Cfg → Progress S A → Type 0
IsSafeRun cfg (arrived a w) = IsSafe cfg w.trace
IsSafeRun cfg (blocks w) = IsSafe cfg w.trace
IsSafeRun cfg (waits w) = IsSafe cfg w.trace
IsSafeRun cfg (failed e w) = IsSafe cfg w.trace
IsSafeRun cfg no_fuel = ⊥

Good-IsSafeRun :
    {S : Type 0} (cfg : Cfg) (t0 : List Event) (p : Progress S (Unit {0}))
    → Good cfg t0 (λ _ _. Unit) p
    → IsSafeRun cfg p
Good-IsSafeRun cfg t0 (arrived a w) (s, e, q) = s
Good-IsSafeRun cfg t0 (blocks w) (s, e) = s
Good-IsSafeRun cfg t0 (waits w) (s, e) = s
Good-IsSafeRun cfg t0 (failed x w) (s, e) = s
Good-IsSafeRun cfg t0 no_fuel h = h

-- Nothing was run before the end.
abbrev pub NothingRan : {S A : Type 0} → Progress S A → Type 0
NothingRan (arrived a w) = ⊥
NothingRan (blocks w) = ⊥
NothingRan (waits w) = ⊥
NothingRan (failed e w) = w.trace ≡ []
NothingRan no_fuel = ⊥

-- A run whose glob can be split is safe, and any other fails before it runs anything.
abbrev pub IsSafeFrom : {S : Type 0} → Cli → Option (Text × Text) → Progress S (Unit {0}) → Type 0
IsSafeFrom cli none p = NothingRan p
IsSafeFrom cli (some parts) p = IsSafeRun (cfg_of cli parts) p

with_glob-Calm :
    {S : Type 0} (h : Host S) (cli : Cli) (dirs : List Text) (parts : Text × Text)
    → Calm (cfg_of cli parts) [] (with_glob h cli dirs (some parts))
with_glob-Calm h cli dirs parts =
    Calm-bind cfg [] (check_tools h dirs required_tools) _
      (check_tools-Calm h cfg dirs required_tools [])
      (λ _.
        Calm-bind cfg [] (create_dir_all h (codes "/run/var-disk-manager"))
          (λ _. bind_socket h >> manage h cfg)
          (create_dir_all-Calm h cfg [] (codes "/run/var-disk-manager"))
          (λ _.
            Calm-bind cfg [] (bind_socket h) (λ _. manage h cfg) (bind_socket-Calm h cfg [])
              (λ _. manage-Calm h cfg [])))
  where
    cfg : Cfg
    cfg = cfg_of cli parts

-- From an empty trace, whatever the host does and whatever messages there are: no loop runs out of fuel,
-- a glob that cannot be split is refused before anything is run, and each command that erases a device
-- was run after the events that the code takes for its justification. These are a look that found no
-- first partition of its disk and two probes of the disk, for a partition table and for a file system,
-- that gave no value, for they did not end well or printed nothing (and, for the opened volume, the
-- opening of the new volume on it), or, for the opened volume, a probe that ended with 2 and the
-- operator's yes. A probe of a disk that failed is no proof of emptiness, and is not told apart here.
pub run-IsSafe :
    {S : Type 0} (h : Host S) (cli : Cli) (dirs : List Text) (w : World S)
    → w.trace ≡ []
    → IsSafeFrom cli (split_prefix_glob cli.volume_glob) (run h cli dirs w)
unfolding run
run-IsSafe h cli dirs w started = by (split_prefix_glob cli.volume_glob)
  where
    by : (o : Option (Text × Text)) → IsSafeFrom cli o (with_glob h cli dirs o w)
    by none = started
    by (some parts) =
        Good-IsSafeRun (cfg_of cli parts) [] _
          (with_glob-Calm h cli dirs parts w (rw started tt) (rw started ([], refl)))
