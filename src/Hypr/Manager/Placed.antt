-- ===== src/Hypr/Manager/Placed.antt =====
-- packages/hypr-workspaced/src/workspace.rs: where the windows are after the loops of the workspace
-- manager, for a compositor that moves a window when it answers `ok` to the request.
use mathlib.Core.Option.{map as Option_map}
use foundrix.Base.{
  ◌≡◌, refl, sym, ap, ◌∙◌, subst, true, ◌⊎◌, List, Option, some, All, All-map, any, if◌then◌else◌,
  Text, text_eq, codes, Result, ok, err,
}
use foundrix.Hypr.Ids.{WorkspaceId}
use foundrix.Hypr.Data.{Client, Monitor, Workspace}
use foundrix.Hypr.Request.{Request}
use foundrix.Hypr.Request.Moves.{move_of}
use foundrix.Hypr.Session.{
  Error, Hyprland, Outcome, ◌>>=◌, send, clients, query, monitors, active_monitor, active_workspace,
}

-- The workspace of each window, by its address; `none` is no window.
abbrev pub Places : Type 0
Places = Text → Option WorkspaceId

-- A list that says where each of its windows is in `before`.
abbrev pub Says : Places → List Client → Type 0
Says before cs = All (λ (c : Client). before c.address ≡ some c.workspace) cs

-- A list that names each window of `before`.
abbrev pub Complete : Places → List Client → Type 0
Complete before cs =
    (x : Text) (w : WorkspaceId)
    → before x ≡ some w
    → any (λ (c : Client). text_eq c.address x) cs ≡ true

-- What the program relies on: a question moves nothing, a move that is answered `ok` moves its
-- window and no other, a move that is not either did so too or moved nothing, and the list of windows
-- is complete and says where each is.
pub record Compositor {S : Type 0} (h : Hyprland S) (place : S → Places) : Type 0 where
  pub asked :
      (request : Text) (s : S) (x : Text) → place (h.exchange (codes "j") request s).1 x ≡ place s x
  pub moved :
      (r : Request) (a : Text) (w : WorkspaceId) (s s1 : S)
      → move_of r ≡ some (a, w)
      → send h r s ≡ (ok tt, s1)
      → (x : Text)
      → place s1 x ≡ (if text_eq a x then Option_map (λ _. w) (place s x) else place s x)
  pub tried :
      (r : Request) (a : Text) (w : WorkspaceId) (s : S)
      → move_of r ≡ some (a, w)
      → (x : Text)
      → (place (send h r s).1 x ≡ place s x)
        ⊎ ((a ≡ x) × (place (send h r s).1 x ≡ Option_map (λ _. w) (place s x)))
  pub listed :
      (s s1 : S) (cs : List Client)
      → clients h s ≡ (ok cs, s1)
      → All (λ (c : Client). place s c.address ≡ some c.workspace) cs × Complete (place s) cs

-- A chain of two actions that succeeds.
pub >>=-ok :
    {S A B : Type 0} (o : Outcome S A) (f : A → S → Outcome S B) (b : B) (s2 : S)
    → (o >>= f) ≡ (ok b, s2)
    → (a : A) × (s1 : S) × (o ≡ (ok a, s1)) × (f a s1 ≡ (ok b, s2))
>>=-ok (ok a, s1) f b s2 h = (a, s1, refl, h)
>>=-ok (err e, s1) f b s2 h = cc

module _ {S : Type 0} (h : Hyprland S) (place : S → Places) (laws : Compositor h place) where
  open laws use {asked, listed}

  -- A question leaves every window where it is.
  pub query-place :
      {A : Type 0} (request : Text) (read : Text → Result A Text) (o : Result A Error) (s s1 : S)
      → query h request read s ≡ (o, s1)
      → (x : Text) → place s1 x ≡ place s x
  unfolding query
  query-place request read o s s1 e x =
      subst (λ t. place t x ≡ place s x) (ap (λ q. q.1) e) (asked request s x)

  pub monitors-place :
      (s s1 : S) (ms : List Monitor)
      → monitors h s ≡ (ok ms, s1)
      → (x : Text) → place s1 x ≡ place s x
  unfolding monitors
  monitors-place s s1 ms e = query-place (codes "monitors all") h.read_monitors (ok ms) s s1 e

  pub active_workspace-place :
      (s s1 : S) (w : Workspace)
      → active_workspace h s ≡ (ok w, s1)
      → (x : Text) → place s1 x ≡ place s x
  unfolding active_workspace
  active_workspace-place s s1 w e =
      query-place (codes "activeworkspace") h.read_workspace (ok w) s s1 e

  pub active_monitor-place :
      (s s1 : S) (m : Monitor)
      → active_monitor h s ≡ (ok m, s1)
      → (x : Text) → place s1 x ≡ place s x
  unfolding active_monitor
  active_monitor-place s s1 m e x =
      let (ms, t, em, ef) = >>=-ok (monitors h s) _ m s1 e in
      subst (λ u. place u x ≡ place s x) (ap (λ q. q.1) ef) (monitors-place s t ms em x)

  -- The list of windows that is read is true of the state before and after the question.
  pub clients-place :
      (s s1 : S) (cs : List Client)
      → clients h s ≡ (ok cs, s1)
      → ((x : Text) → place s1 x ≡ place s x) × Says (place s1) cs × Complete (place s1) cs
  unfolding clients
  clients-place s s1 cs e = (
    same,
    All-map (λ c q. same c.address ∙ q) cs (listed s s1 cs e).0,
    λ x w q. (listed s s1 cs e).1 x w (sym (same x) ∙ q),
  )
    where
      same : (x : Text) → place s1 x ≡ place s x
      same = query-place (codes "clients") h.read_clients (ok cs) s s1 e
