-- ===== src/VarDisk/Run.antt =====
-- packages/var-disk-manager/src/bin/daemon.rs: the start of the daemon, the enumeration and probing of
-- the disks, and the dispatch on the plan.
use foundrix.Base.{
  ℕ, zero, suc, ◌+◌, ◌==◌, ltb, leb, Bool, true, false, not, ◌&&◌, List, [], ◌∷◌, ◌++◌, Option,
  none, some, if◌then◌else◌, length, filter, Text, codes, starts_with, contains, sort_texts,
}
use foundrix.VarDisk.Classify.{
  DiskClass, foreign, DiskProbe, classify, is_class, Plan, plan, split_prefix_glob,
}
use foundrix.VarDisk.Commands.{Cfg, dev, part1, blkid_call, partuuid_call}
use foundrix.VarDisk.World.{
  Step, arrived, failed, ◌>>=◌, ◌>>◌, pure, fail, Failure, Phase, Message, Reason, DiskInfo, Host,
}
use foundrix.VarDisk.Host.{
  mutate, state, block_forever, probe_value, settle, exists, create_dir_all,
}
use foundrix.VarDisk.Format.{provision}
use foundrix.VarDisk.Unlock.{unlock, ensure_label}
use foundrix.VarDisk.Migrate.{migrate}

pub record Cli : Type 0 where
  pub volume_glob : Text
  pub luks_partuuid : Text
  pub fs_label : Text
  pub mapper : Text
  pub min_passphrase_len : ℕ

abbrev pub cfg_of : Cli → Text × Text → Cfg
cfg_of cli (by_id_dir, prefix) = record {
  by_id_dir = by_id_dir;
  prefix = prefix;
  id = record { luks_partuuid = cli.luks_partuuid; fs_label = cli.fs_label; mapper = cli.mapper };
  min_passphrase_len = cli.min_passphrase_len;
}

abbrev pub required_tools : List Text
required_tools =
    codes "blkid"
    ∷ codes "lsblk"
    ∷ codes "blockdev"
    ∷ codes "wipefs"
    ∷ codes "sgdisk"
    ∷ codes "cryptsetup"
    ∷ codes "btrfs"
    ∷ codes "mkfs.btrfs"
    ∷ codes "udevadm"
    ∷ codes "mount"
    ∷ codes "umount"
    ∷ codes "sync"
    ∷ []

abbrev pub or_dash : Option Text → Text
or_dash none = codes "-"
or_dash (some s) = s

unfoldable pub detail : DiskProbe → Text
detail p =
    if p.has_part1
    then codes "part1 fstype="
      ++ or_dash p.part_fstype
      ++ codes " partuuid="
      ++ or_dash p.part_partuuid
    else codes "pttype=" ++ or_dash p.disk_pttype ++ codes " fstype=" ++ or_dash p.disk_fstype

unfoldable pub is_volume : Cfg → Text → Bool
unfolding starts_with contains
is_volume cfg n = starts_with cfg.prefix n && not (contains n (codes "-part"))

module _ {S : Type 0} (h : Host S) where
  -- The tool is looked for in each directory of PATH.
  unfoldable pub find_tool : Text → List Text → Step S Bool
  unfolding exists
  find_tool tool [] = pure false
  find_tool tool (d ∷ dirs) = exists h (d ++ codes "/" ++ tool) >>= λ there. elim there [
    | true ↦ pure true
    | false ↦ find_tool tool dirs
  ]

  abbrev pub require_tool : Text → Bool → Step S (Unit {0})
  require_tool tool true = pure tt
  require_tool tool false = fail (Failure.tool_missing tool)

  unfoldable pub check_tools : List Text → List Text → Step S (Unit {0})
  unfolding find_tool
  check_tools dirs [] = pure tt
  check_tools dirs (tool ∷ tools) =
      find_tool tool dirs >>= require_tool tool >> check_tools dirs tools

  unfoldable pub bind_socket : Step S (Unit {0})
  bind_socket w =
      let (b, s) = h.bind w.host in
      if b
      then arrived tt (record w { host = s })
      else failed (Failure.io_error (codes "binding control socket")) (record w { host = s })

  module _ (cfg : Cfg) where
    unfoldable pub list_volumes : Step S (List Text)
    unfolding is_volume sort_texts
    list_volumes w =
        let (names, s) = h.list_dir cfg.by_id_dir w.host in
        arrived (sort_texts (filter (is_volume cfg) names)) (record w { host = s })

    unfoldable pub probe_part : Bool → Text → Step S (Option Text × Option Text)
    unfolding probe_value blkid_call partuuid_call
    probe_part false p1 = pure (none, none)
    probe_part true p1 = probe_value h (blkid_call (codes "TYPE") p1) >>= λ fstype.
        probe_value h (partuuid_call p1) >>= λ partuuid. pure (fstype, partuuid)

    unfoldable pub probe : Text → Step S DiskProbe
    unfolding exists part1 probe_part probe_value blkid_call dev
    probe id = exists h (part1 cfg id) >>= λ has_part1.
        probe_part has_part1 (part1 cfg id) >>= λ part.
        probe_value h (blkid_call (codes "PTTYPE") (dev cfg id)) >>= λ pttype.
        probe_value h (blkid_call (codes "TYPE") (dev cfg id)) >>= λ fstype. pure (record {
          id = id;
          has_part1 = has_part1;
          part_fstype = part.0;
          part_partuuid = part.1;
          disk_pttype = pttype;
          disk_fstype = fstype;
        })

    -- The wait for the set of volumes to stay the same: five times in a row, at most ninety looks.
    unfoldable pub await_stable : ℕ → ℕ → ℕ → Step S (Unit {0})
    unfolding list_volumes
    await_stable zero stable prev = pure tt
    await_stable (suc n) stable prev = list_volumes >>= λ volumes.
        elim (ltb 0 (length volumes) && length volumes == prev) [
          | true ↦ elim (leb 5 (stable + 1)) [
            | true ↦ pure tt
            | false ↦ await_stable n (stable + 1) (length volumes)
          ]
          | false ↦ await_stable n 0 (length volumes)
        ]

    unfoldable pub tell_foreign : Bool → DiskProbe → Step S (Unit {0})
    unfolding state detail
    tell_foreign true p = state Phase.classify_phase (Message.ignoring p.id (detail p))
    tell_foreign false p = pure tt

    -- The disk as the screens show it, and as the plan sees it.
    abbrev pub Classified : Type 0
    Classified = List DiskInfo × List (Text × DiskClass)

    abbrev pub found : DiskProbe → Classified → Classified
    found p (infos, classes) = (
      record { id = p.id; class = classify p cfg.id.luks_partuuid; detail = detail p } ∷ infos,
      (p.id, classify p cfg.id.luks_partuuid) ∷ classes,
    )

    unfoldable pub classify_each : List Text → Step S Classified
    unfolding probe classify detail tell_foreign
    classify_each [] = pure ([], [])
    classify_each (id ∷ ids) = probe id >>= λ p.
        tell_foreign (is_class foreign (classify p cfg.id.luks_partuuid)) p
        >> classify_each ids
        >>= λ rest. pure (found p rest)

    -- The match on the plan.
    unfoldable pub follow : Plan → Step S (Unit {0})
    unfolding unlock ensure_label migrate provision block_forever
    follow (Plan.unlock luks) = unlock h cfg luks
    follow (Plan.boot_legacy legacy) = ensure_label h cfg legacy
    follow (Plan.migrate legacy blank) = migrate h cfg legacy blank
    follow (Plan.provision blank) = provision h cfg blank
    follow (Plan.block reason) = block_forever (Reason.planned reason)
    follow Plan.no_disks = fail Failure.no_volume

    abbrev pub show_disks : List DiskInfo → Step S (Unit {0})
    show_disks infos w = arrived tt (mutate (λ s. record s { disks = infos }) w)

    -- `run` from the enumeration on.
    unfoldable pub manage : Step S (Unit {0})
    unfolding state settle await_stable list_volumes classify_each mutate plan follow
    manage = do
      state Phase.enumerate_phase Message.waiting_for_volumes
      settle h
      await_stable 90 0 0
      state Phase.classify_phase Message.classifying
      ids ← list_volumes
      classified ← classify_each ids
      show_disks classified.0
      follow (plan classified.1)

  abbrev pub with_glob : Cli → List Text → Option (Text × Text) → Step S (Unit {0})
  with_glob cli dirs none = fail (Failure.bad_glob cli.volume_glob)
  with_glob cli dirs (some parts) = do
    check_tools dirs required_tools
    create_dir_all h (codes "/run/var-disk-manager")
    bind_socket
    manage (cfg_of cli parts)

  -- `run`, with the directories of PATH.
  unfoldable pub run : Cli → List Text → Step S (Unit {0})
  unfolding split_prefix_glob check_tools create_dir_all bind_socket manage
  run cli dirs = with_glob cli dirs (split_prefix_glob cli.volume_glob)
