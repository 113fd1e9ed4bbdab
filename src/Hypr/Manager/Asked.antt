-- ===== src/Hypr/Manager/Asked.antt =====
-- packages/hypr-workspaced/src/workspace.rs, `sync_monitors`: what it asks of Hyprland.
use foundrix.Base.{
  ◌≤◌, ◌≡◌, refl, sym, ap, ◌∙◌, subst, ◌⊎◌, inl, inr, Bool, true, false, not, List, [], ◌∷◌, Option,
  none, some, All, All-map, if◌then◌else◌, Bool-cases, find, leb, length, arith, Text, codes, ℤ,
  eq_ℤ, eq_ℤ_iff, ltb_ℤ, pos, Result, ok, err,
}
use foundrix.Hypr.Ids.{VirtualWorkspace, WorkspaceId, workspace_of}
use foundrix.Hypr.Data.{Monitor, Client, Workspace}
use foundrix.Hypr.Request.{Request, command}
use foundrix.Hypr.Session.{
  Hyprland, Outcome, ◌>>=◌, or_warn, for_each, query, send, clients, monitors, workspaces,
  active_workspace, cursor_position,
}
use foundrix.Hypr.Manager.{
  WorkspaceManager, is_pinned, target_of, find_monitor_for_client, move_to_monitor, move_pinned,
  move_pinned_windows,
}
use foundrix.Hypr.Manager.Sync.{
  focus_found, focus_window_under_cursor, relocate, sync_each, refocus, sync_to, sync_monitors,
}

-- The request stands in the log.
abbrev pub Sent : Text → List Text → Type 0
Sent c [] = ⊥
Sent c (x ∷ xs) = (x ≡ c) ⊎ Sent c xs

-- A Hyprland whose state has a log of what was asked, and that always names the active workspace.
pub record Attentive {S : Type 0} (h : Hyprland S) (log : S → List Text) : Type 0 where
  pub logged : (flags request : Text) (s : S) → log (h.exchange flags request s).1 ≡ request ∷ log s
  pub names_active : (s : S) → (ws : Workspace) × (t : S) × (active_workspace h s ≡ (ok ws, t))

module _ {S : Type 0} (h : Hyprland S) (log : S → List Text) (laws : Attentive h log) where
  -- What was asked stays in the log.
  unfoldable Keeps : {A : Type 0} → (S → Outcome S A) → Type 0
  Keeps f = (c : Text) (s : S) → Sent c (log s) → Sent c (log (f s).1)

  abbrev Later : S → S → Type 0
  Later s t = (c : Text) → Sent c (log s) → Sent c (log t)

  query-Keeps :
      {A : Type 0} (request : Text) (read : Text → Result A Text) → Keeps (query h request read)
  unfolding Keeps query
  query-Keeps request read c s k = subst (Sent c) (sym (laws.logged _ request s)) (inr k)

  send-Keeps : (r : Request) → Keeps (send h r)
  unfolding Keeps send
  send-Keeps r c s k = subst (Sent c) (sym (laws.logged _ (command r) s)) (inr k)

  send-Sent : (r : Request) (s : S) → Sent (command r) (log (send h r s).1)
  unfolding send
  send-Sent r s = subst (Sent (command r)) (sym (laws.logged _ (command r) s)) (inl refl)

  monitors-Keeps : Keeps (monitors h)
  unfolding monitors
  monitors-Keeps = query-Keeps (codes "monitors all") h.read_monitors

  clients-Keeps : Keeps (clients h)
  unfolding clients
  clients-Keeps = query-Keeps (codes "clients") h.read_clients

  workspaces-Keeps : Keeps (workspaces h)
  unfolding workspaces
  workspaces-Keeps = query-Keeps (codes "workspaces") h.read_workspaces

  active_workspace-Keeps : Keeps (active_workspace h)
  unfolding active_workspace
  active_workspace-Keeps = query-Keeps (codes "activeworkspace") h.read_workspace

  cursor_position-Keeps : Keeps (cursor_position h)
  unfolding cursor_position
  cursor_position-Keeps = query-Keeps (codes "cursorpos") h.read_cursor

  nothing-Keeps : Keeps (λ s. (ok tt, s))
  unfolding Keeps
  nothing-Keeps c s k = k

  bind-Keeps :
      {A B : Type 0} (f : S → Outcome S A) (g : A → S → Outcome S B)
      → Keeps f
      → ((a : A) → Keeps (g a))
      → Keeps (λ s. f s >>= g)
  unfolding Keeps
  bind-Keeps {A} {B} f g kf kg c s k = by (f s) (kf c s k)
    where
      by : (p : Outcome S A) → Sent c (log p.1) → Sent c (log (p >>= g).1)
      by (ok a, t) h = kg a c t h
      by (err e, t) h = h

  for_each-Keeps :
      {A : Type 0} (xs : List A) (f : A → S → Outcome S (Unit {0}))
      → ((a : A) → Keeps (f a))
      → Keeps (for_each xs f)
  unfolding for_each
  for_each-Keeps [] f k = nothing-Keeps
  for_each-Keeps (x ∷ xs) f k =
      bind-Keeps (f x) (λ _. for_each xs f) (k x) (λ _. for_each-Keeps xs f k)

  if-Keeps :
      {A : Type 0} (b : Bool) (f g : S → Outcome S A)
      → Keeps f
      → Keeps g
      → Keeps (λ s. if b then f s else g s)
  unfolding Keeps
  if-Keeps true f g kf kg = kf
  if-Keeps false f g kf kg = kg

  module _ (m : WorkspaceManager) (v : VirtualWorkspace) where
    focus_found-Keeps : (o : Option Client) → Keeps (focus_found h m o)
    unfolding focus_found
    focus_found-Keeps none = nothing-Keeps
    focus_found-Keeps (some c) = send-Keeps (Request.focus_window c.address)

    focus_window_under_cursor-Keeps : Keeps (focus_window_under_cursor h m v)
    unfolding focus_window_under_cursor
    focus_window_under_cursor-Keeps =
        bind-Keeps (cursor_position h) _ cursor_position-Keeps (λ cursor.
          bind-Keeps (clients h) _ clients-Keeps
            (λ cs. bind-Keeps (monitors h) _ monitors-Keeps (λ ms. focus_found-Keeps _)))

    move_to_monitor-Keeps : (c : Client) (o : Option ℤ) → Keeps (move_to_monitor h m v c o)
    unfolding move_to_monitor
    move_to_monitor-Keeps c none = nothing-Keeps
    move_to_monitor-Keeps c (some id) =
        if-Keeps _ _ _ (send-Keeps (Request.move_window_silent c.address (target_of m v id)))
          nothing-Keeps

    move_pinned-Keeps : (ms : List Monitor) (c : Client) → Keeps (move_pinned h m v ms c)
    unfolding move_pinned
    move_pinned-Keeps ms c = if-Keeps (not (is_pinned m c)) _ _ nothing-Keeps (
        if-Keeps (ltb_ℤ c.workspace (pos 0)) _ _ nothing-Keeps
          (move_to_monitor-Keeps c (find_monitor_for_client c ms)))

    move_pinned_windows-Keeps : Keeps (move_pinned_windows h m v)
    unfolding move_pinned_windows
    move_pinned_windows-Keeps = if-Keeps _ _ _ nothing-Keeps (
        bind-Keeps (clients h) _ clients-Keeps (λ cs.
          bind-Keeps (monitors h) _ monitors-Keeps
            (λ ms. for_each-Keeps cs _ (λ c. move_pinned-Keeps ms c))))

    refocus-Keeps :
        (trigger : WorkspaceId) (active : Workspace) → Keeps (refocus h m trigger active)
    unfolding refocus
    refocus-Keeps trigger active =
        if-Keeps _ _ _ (send-Keeps (Request.focus_workspace trigger)) nothing-Keeps

    relocate-Keeps :
        (target : WorkspaceId) (monitor : Monitor) (o : Option Workspace)
        → Keeps (relocate h m target monitor o)
    unfolding relocate
    relocate-Keeps target monitor none = nothing-Keeps
    relocate-Keeps target monitor (some ws) =
        if-Keeps _ _ _ (send-Keeps (Request.move_workspace_to_monitor target monitor.name))
          nothing-Keeps

    -- The monitor is the trigger's, or was listed with its workspace of `v`, or it was asked to focus
    -- that workspace.
    abbrev pub Switched : WorkspaceId → S → Monitor → Type 0
    Switched trigger t monitor =
        (target_of m v monitor.id ≡ trigger)
        ⊎ (monitor.active_workspace ≡ target_of m v monitor.id)
        ⊎ Sent (command (Request.focus_workspace (target_of m v monitor.id))) (log t)

    module _ (trigger : WorkspaceId) (wss : List Workspace) where
      -- One round of the loop.
      sync_each-Switched :
          (monitor : Monitor) (s : S)
          → (t : S) × (sync_each h m v trigger wss monitor s ≡ (ok tt, t))
            × Later s t
            × Switched trigger t monitor
      unfolding sync_each Keeps
      sync_each-Switched monitor s = elim (Bool-cases (eq_ℤ target trigger)) [
        | inl e ↦ (s, rw e refl, (λ c k. k), inl ((eq_ℤ_iff _ _).0 e))
        | inr e ↦ elim (Bool-cases (eq_ℤ monitor.active_workspace target)) [
          | inl e' ↦ (s, rw (e, e') refl, (λ c k. k), inr (inl ((eq_ℤ_iff _ _).0 e')))
          | inr e' ↦ (
            (send h focus moved.1).1,
            rw (e, e') refl,
            (λ c k. send-Keeps focus c moved.1 (relocate-Keeps target monitor known c s k)),
            inr (inr (send-Sent focus moved.1)),
          )
        ]
      ]
        where
          target : WorkspaceId
          target = target_of m v monitor.id

          known : Option Workspace
          known = find (λ (w : Workspace). eq_ℤ w.id target) wss

          moved : Outcome S (Unit {0})
          moved = relocate h m target monitor known s

          focus : Request
          focus = Request.focus_workspace target

      Switched-Later :
          (monitor : Monitor) (s t : S)
          → Later s t
          → Switched trigger s monitor
          → Switched trigger t monitor
      Switched-Later monitor s t k (inl e) = inl e
      Switched-Later monitor s t k (inr (inl e)) = inr (inl e)
      Switched-Later monitor s t k (inr (inr e)) = inr (inr (k _ e))

      for_each-Switched :
          (ms : List Monitor) (s : S)
          → (t : S) × (for_each ms (sync_each h m v trigger wss) s ≡ (ok tt, t))
            × Later s t
            × All (Switched trigger t) ms
      unfolding for_each
      for_each-Switched [] s = (s, refl, (λ c k. k), tt)
      for_each-Switched (monitor ∷ ms) s =
          let (t1, e1, k1, w1) = sync_each-Switched monitor s in
          let (t, e, k, w) = for_each-Switched ms t1 in
          (
            t,
            ap (λ p. p >>= λ _ u. for_each ms (sync_each h m v trigger wss) u) e1 ∙ e,
            (λ c x. k c (k1 c x)),
            (Switched-Later monitor t1 t k w1, w),
          )

    -- The rest of `sync_to`, whose failures are warnings.
    abbrev rest_of : WorkspaceId → S → Outcome S (Unit {0})
    rest_of trigger s2 = or_warn (move_pinned_windows h m v s2) (λ s3.
        active_workspace h s3 >>= λ active s4.
        or_warn (refocus h m trigger active s4)
          (λ s5. or_warn (focus_window_under_cursor h m v s5) (λ s6. (ok tt, s6))))

    rest_of-Later :
        (trigger : WorkspaceId) (s2 : S) → (t : S) × (rest_of trigger s2 ≡ (ok tt, t)) × Later s2 t
    unfolding Keeps
    rest_of-Later trigger s2 =
        let s3 = (move_pinned_windows h m v s2).1 in
        let (ws, s4, e) = laws.names_active s3 in
        let s5 = (refocus h m trigger ws s4).1 in
        (
          (focus_window_under_cursor h m v s5).1,
          ap
              (λ p. p >>= λ active u.
                or_warn (refocus h m trigger active u)
                  (λ s5. or_warn (focus_window_under_cursor h m v s5) (λ s6. (ok tt, s6))))
              e,
          λ c k. focus_window_under_cursor-Keeps c s5 (
              refocus-Keeps trigger ws c s4 (
                subst (λ (p : Outcome S Workspace). Sent c (log p.1)) e
                  (active_workspace-Keeps c s3 (move_pinned_windows-Keeps c s2 k)))),
        )

    -- Two monitors or more are listed, and the workspaces. Then a synchronisation is a success that has
    -- asked each of these monitors for its workspace of `v`, but for those that are there.
    pub sync_monitors-Switched :
        (trigger : WorkspaceId) (s s1 s2 : S) (ms : List Monitor) (wss : List Workspace)
        → workspace_of trigger ≡ some v
        → monitors h s ≡ (ok ms, s1)
        → 2 ≤ length ms
        → workspaces h s1 ≡ (ok wss, s2)
        → (t : S) × (sync_monitors h m trigger s ≡ (ok tt, t)) × All (Switched trigger t) ms
    unfolding sync_monitors sync_to
    sync_monitors-Switched trigger s s1 s2 ms wss ev em two ew =
        let (t, e, k, w) = for_each-Switched trigger wss ms s2 in
        let (u, e', k') = rest_of-Later trigger t in
        (
          u,
          rw (ev, em, many, ew, e) e',
          All-map (λ monitor x. Switched-Later trigger wss monitor t u k' x) ms w,
        )
      where
        many : leb (length ms) 1 ≡ false
        many = ground arith
