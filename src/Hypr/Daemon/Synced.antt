-- ===== src/Hypr/Daemon/Synced.antt =====
-- packages/hypr-workspaced/src/daemon.rs: the notices of workspace changes reach the monitors, and
-- those that the daemon's own requests cause go no further.
use foundrix.Base.{
  ℕ, ◌+◌, ◌%◌, ◌^◌, ◌≤◌, ◌<◌, ◌≡◌, refl, sym, ap, ◌∙◌, subst, Bool, true, false, List, [], ◌∷◌,
  ◌++◌, ◌≢◌, ==_iff, ok, All, Text, map, length, Option, none, some, leb, ◌==◌, if◌then◌else◌,
  arith, all, ◌⊎◌, inl, inr, Bool-cases, and-left, and-right,
}
use foundrix.Hypr.Ids.{VirtualWorkspace, WorkspaceId, workspace_of}
use foundrix.Hypr.Data.{Monitor, Workspace}
use foundrix.Hypr.Session.{monitors, workspaces}
use foundrix.Hypr.Manager.Sync.{sync_monitors}
use foundrix.Hypr.Manager.Asked.{Attentive, Switched, sync_monitors-Switched}
use foundrix.Hypr.Daemon.{
  Daemon, Outside, workspace_changed, LoopEvent, entered, sync_noticed, commanded, monitors_changed,
  on_event, on_events, sync_changed, sync_to_latest, is_synced, synced,
}

abbrev noticed : Daemon → WorkspaceId → ℕ → Daemon
noticed d id g = record d { watch = record { workspace_id = id; generation = g } }

flip : (u v : ℕ) → (u == v) ≡ true → (v == u) ≡ true
flip u v h = ground arith

abbrev seen : Daemon → Daemon
seen d = record d { last_synced_generation = d.watch.generation }

-- A workspace of the virtual workspace, or of none.
abbrev pub shows : VirtualWorkspace → WorkspaceId → Bool
shows v id = elim (workspace_of id) [ none ↦ true | some u ↦ u == v ]

-- The steps that the daemon's own requests for the virtual workspace cause, and their notices.
abbrev pub is_echo : VirtualWorkspace → LoopEvent → Bool
is_echo v sync_noticed = true
is_echo v (entered id) = shows v id
is_echo v _ = false

module _ {S : Type 0} (o : Outside S) where
  -- The generation after as many changes as the list is long, and one.
  abbrev later : List WorkspaceId → Daemon → ℕ
  later ids d = (d.watch.generation + length ids + 1) % 2 ^ 64

  on_events-append :
      (xs ys : List LoopEvent) (w : Daemon × S)
      → on_events o (xs ++ ys) w ≡ on_events o ys (on_events o xs w)
  unfolding on_events
  on_events-append [] ys w = refl
  on_events-append (x ∷ xs) ys w = on_events-append xs ys (on_event o x w)

  -- Changes that no notice was taken of leave the last of them.
  on_events-entered :
      (ids : List WorkspaceId) (id : WorkspaceId) (d : Daemon) (s : S)
      → on_events o (map entered (ids ++ id ∷ [])) (d, s)
        ≡ (record d { watch = record { workspace_id = id; generation = later ids d } }, s)
  unfolding on_events on_event workspace_changed
  on_events-entered [] id d s = ap (λ g. (noticed d id g, s)) (omega arith)
  on_events-entered (i ∷ ids) id d s =
      on_events-entered ids id (record d { watch = workspace_changed i d.watch }) s
      ∙ ap (λ g. (noticed d id g, s)) (omega arith)

  sync_changed-fresh :
      (d : Daemon) (s : S) (v : VirtualWorkspace)
      → leb d.watch.generation d.last_synced_generation ≡ false
      → workspace_of d.watch.workspace_id ≡ some v
      → is_synced o d.last_synced_vspace v ≡ false
      → sync_changed o d s
        ≡ synced o (seen d) v (sync_monitors o.hyprland d.manager d.watch.workspace_id s)
  unfolding sync_changed
  sync_changed-fresh d s v new ev fresh =
      ap
        (λ b.
          if b
          then (d, s)
          else sync_to_latest o (seen d) d.watch.workspace_id (workspace_of d.watch.workspace_id) s)
        new
      ∙ ap (λ w. sync_to_latest o (seen d) d.watch.workspace_id w s) ev
      ∙ ap
          (λ b.
            if b
            then (seen d, s)
            else synced o (seen d) v (sync_monitors o.hyprland d.manager d.watch.workspace_id s))
          fresh

  -- The notice that follows the changes leads to a synchronisation to the last of them.
  on_events-synced :
      (ids : List WorkspaceId) (id : WorkspaceId) (d : Daemon) (s : S) (v : VirtualWorkspace)
      → d.last_synced_generation ≤ d.watch.generation
      → d.watch.generation + length ids + 1 < 2 ^ 64
      → workspace_of id ≡ some v
      → is_synced o d.last_synced_vspace v ≡ false
      → on_events o (map entered (ids ++ id ∷ []) ++ sync_noticed ∷ []) (d, s)
        ≡ synced o
            (record d {
              watch = record {
                workspace_id = id;
                generation = d.watch.generation + length ids + 1;
              };
              last_synced_generation = d.watch.generation + length ids + 1;
            })
            v
            (sync_monitors o.hyprland d.manager id s)
  unfolding on_events sync_changed sync_monitors
  on_events-synced ids id d s v le lt ev fresh =
      on_events-append (map entered (ids ++ id ∷ [])) (sync_noticed ∷ []) (d, s)
      ∙ ap (on_events o (sync_noticed ∷ []))
          (on_events-entered ids id d s ∙ ap (λ g. (noticed d id g, s)) (omega arith))
      ∙ sync_changed-fresh (noticed d id (d.watch.generation + length ids + 1)) s v (ground arith)
          ev fresh

  other_synced :
      (last : Option VirtualWorkspace) (v : VirtualWorkspace)
      → last ≢ some v
      → is_synced o last v ≡ false
  other_synced none v ne = refl
  other_synced (some u) v ne = elim (Bool-cases (u == v)) [
    | inl e ↦ absurd (ne (ap some ((==_iff u v).0 e)))
    | inr e ↦ e
  ]

  -- For a Hyprland that keeps a log of what it is asked and always names the active workspace: the
  -- daemon last synchronised another virtual workspace than `v`, or none, the counter does not wrap
  -- around, and a workspace of `v` is entered last, after any number of others. Two monitors or more
  -- are listed then, and the workspaces. Then the next notice leaves `v` as the one that is
  -- synchronised, with the generation of the last change, and the manager as it was; and each monitor
  -- was asked for its workspace of `v`, unless that is the entered one or was listed as active there.
  pub on_events-Latest :
      (log : S → List Text) (laws : Attentive o.hyprland log) (ids : List WorkspaceId)
      (id : WorkspaceId) (d : Daemon) (s s1 s2 : S) (v : VirtualWorkspace) (ms : List Monitor)
      (wss : List Workspace)
      → d.last_synced_generation ≤ d.watch.generation
      → d.watch.generation + length ids + 1 < 2 ^ 64
      → workspace_of id ≡ some v
      → d.last_synced_vspace ≢ some v
      → monitors o.hyprland s ≡ (ok ms, s1)
      → 2 ≤ length ms
      → workspaces o.hyprland s1 ≡ (ok wss, s2)
      → let w = on_events o (map entered (ids ++ id ∷ []) ++ sync_noticed ∷ []) (d, s) in
        (w.0.last_synced_vspace ≡ some v)
        × (w.0.last_synced_generation ≡ d.watch.generation + length ids + 1)
        × (w.0.manager ≡ d.manager)
        × All (Switched o.hyprland log laws d.manager v id w.1) ms
  on_events-Latest log laws ids id d s s1 s2 v ms wss le lt ev ne em two ew =
      let (t, e, switched) =
        sync_monitors-Switched o.hyprland log laws d.manager v id s s1 s2 ms wss ev em two ew in
      subst After
        (sym (
          on_events-synced ids id d s v le lt ev (other_synced d.last_synced_vspace v ne)
          ∙ ap (synced o changed v) e))
        (refl, refl, refl, switched)
    where
      changed : Daemon
      changed = record d {
        watch = record { workspace_id = id; generation = d.watch.generation + length ids + 1 };
        last_synced_generation = d.watch.generation + length ids + 1;
      }

      After : Daemon × S → Type 0
      After w =
          (w.0.last_synced_vspace ≡ some v)
          × (w.0.last_synced_generation ≡ d.watch.generation + length ids + 1)
          × (w.0.manager ≡ d.manager)
          × All (Switched o.hyprland log laws d.manager v id w.1) ms

  -- What the loop does on a notice that it does not act on, and what it keeps.
  abbrev Settled : VirtualWorkspace → Daemon → Type 0
  Settled v d = (d.last_synced_vspace ≡ some v) × (shows v d.watch.workspace_id ≡ true)

  Settled-sync_changed :
      (v : VirtualWorkspace) (d : Daemon) (s : S)
      → Settled v d
      → (sync_changed o d s ≡ (d, s)) ⊎ (sync_changed o d s ≡ (seen d, s))
  unfolding sync_changed
  Settled-sync_changed v d s (e, sh) =
      elim (Bool-cases (leb d.watch.generation d.last_synced_generation)) [
        | inl old ↦ inl (
            ap
              (λ b.
                if b
                then (d, s)
                else sync_to_latest o (seen d) d.watch.workspace_id
                    (workspace_of d.watch.workspace_id) s)
              old)
        | inr new ↦ inr (
            ap
              (λ b.
                if b
                then (d, s)
                else sync_to_latest o (seen d) d.watch.workspace_id
                    (workspace_of d.watch.workspace_id) s)
              new
            ∙ by (workspace_of d.watch.workspace_id) sh)
      ]
    where
      by :
          (w : Option VirtualWorkspace)
          → (elim w [ none ↦ true | some u ↦ u == v ]) ≡ true
          → sync_to_latest o (seen d) d.watch.workspace_id w s ≡ (seen d, s)
      by none h = refl
      by (some u) h =
          ap
            (λ l.
              if is_synced o l u
              then (seen d, s)
              else synced o (seen d) u (sync_monitors o.hyprland d.manager d.watch.workspace_id s))
            e
          ∙ ap
              (λ b.
                if b
                then (seen d, s)
                else synced o (seen d) u
                    (sync_monitors o.hyprland d.manager d.watch.workspace_id s))
              (flip u v h)

  -- The daemon has synchronised the virtual workspace `v`, and the workspace entered last is one of
  -- `v`, or of none. Then whatever workspaces of `v`, or of none, are entered, and whenever the
  -- notices come, the daemon asks nothing of Hyprland and its manager stays as it is.
  pub on_events-Settled :
      (v : VirtualWorkspace) (steps : List LoopEvent) (d : Daemon) (s : S)
      → d.last_synced_vspace ≡ some v
      → shows v d.watch.workspace_id ≡ true
      → all (is_echo v) steps ≡ true
      → ((on_events o steps (d, s)).1 ≡ s)
        × ((on_events o steps (d, s)).0.last_synced_vspace ≡ some v)
        × ((on_events o steps (d, s)).0.manager ≡ d.manager)
  unfolding on_events on_event workspace_changed
  on_events-Settled v [] d s e sh h = (refl, e, refl)
  on_events-Settled v (sync_noticed ∷ steps) d s e sh h =
      elim (Settled-sync_changed v d s (e, sh)) [
        | inl q ↦ subst After (sym q) (on_events-Settled v steps d s e sh h)
        | inr q ↦ subst After (sym q) (on_events-Settled v steps (seen d) s e sh h)
      ]
    where
      After : Daemon × S → Type 0
      After w =
          ((on_events o steps w).1 ≡ s)
          × ((on_events o steps w).0.last_synced_vspace ≡ some v)
          × ((on_events o steps w).0.manager ≡ d.manager)
  on_events-Settled v (entered id ∷ steps) d s e sh h =
      on_events-Settled v steps _ s e (and-left (shows v id) (all (is_echo v) steps) h)
        (and-right (shows v id) (all (is_echo v) steps) h)
  on_events-Settled v (commanded c ∷ steps) d s e sh h = cc
  on_events-Settled v (monitors_changed ∷ steps) d s e sh h = cc
