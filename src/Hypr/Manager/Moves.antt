-- ===== src/Hypr/Manager/Moves.antt =====
-- packages/hypr-workspaced/src/workspace.rs: what the loops of the workspace manager that move windows
-- leave behind.
use mathlib.Core.Option.{map as Option_map}
use mathlib.Core.Path.{fun_ext}
use foundrix.Base.{
  ◌≡◌, refl, sym, ap, ◌∙◌, subst, Bool, true, false, ◌&&◌, ◌||◌, List, [], ◌∷◌, Option, none, some,
  any, filter, if◌then◌else◌, Bool-cases, inl, inr, arith, Text, text_eq, text_eq_iff, eq_ℤ, ok,
}
use foundrix.Hypr.Ids.{WorkspaceId}
use foundrix.Hypr.Data.{Client}
use foundrix.Hypr.Request.{Request}
use foundrix.Hypr.Request.Moves.{move_of}
use foundrix.Hypr.Session.{Hyprland, Outcome, ◌>>=◌, for_each, send}
use foundrix.Hypr.Manager.Placed.{Places, Compositor, Says, Complete, >>=-ok}

abbrev pub passes : (WorkspaceId → Bool) → Option WorkspaceId → Bool
passes p none = false
passes p (some w) = p w

-- A window that is moved if a test holds.
abbrev pub moved_if : Bool → WorkspaceId → Option WorkspaceId → Option WorkspaceId
moved_if b w o = if b then Option_map (λ _. w) o else o

-- Some window of the list has this address and passes the test.
any-passes :
    (before : Places) (p : WorkspaceId → Bool) (x : Text) (cs : List Client)
    → Says before cs
    → any (λ (c : Client). text_eq c.address x && p c.workspace) cs
      ≡ (any (λ (c : Client). text_eq c.address x) cs && passes p (before x))
any-passes before p x [] h = refl
any-passes before p x (c ∷ cs) (e, h) = elim (Bool-cases (text_eq c.address x)) [
  | inl same ↦ rw (same, any-passes before p x cs h, there same) (or_and _ _)
  | inr other ↦ rw (other, any-passes before p x cs h) refl
]
  where
    there : text_eq c.address x ≡ true → before x ≡ some c.workspace
    there same = subst (λ a. before a ≡ some c.workspace) ((text_eq_iff c.address x).0 same) e

    or_and : (b a : Bool) → (b || (a && b)) ≡ b
    or_and b a = ground arith

and_true : (b : Bool) → (b && true) ≡ b
and_true b = ground arith

and_false : (b : Bool) → (b && false) ≡ false
and_false b = ground arith

moved_twice :
    (w : WorkspaceId) (a b : Bool) (o : Option WorkspaceId)
    → moved_if b w (moved_if a w o) ≡ moved_if (a || b) w o
moved_twice w a b none = ground arith
moved_twice w a b (some v) = ground arith

module _ {S : Type 0} (h : Hyprland S) (place : S → Places) (laws : Compositor h place) where
  open laws use {moved}

  -- The moves of one loop: those of the windows that pass the test go to `w`.
  abbrev pub Moves :
      (WorkspaceId → Bool) → WorkspaceId → (Client → S → Outcome S (Unit {0})) → Type 0
  Moves p w g =
      (c : Client) (s s1 : S)
      → g c s ≡ (ok tt, s1)
      → (x : Text) → place s1 x ≡ moved_if (text_eq c.address x && p c.workspace) w (place s x)

  for_each-Moves :
      (p : WorkspaceId → Bool) (w : WorkspaceId) (g : Client → S → Outcome S (Unit {0}))
      → Moves p w g
      → (cs : List Client) (s s1 : S) → for_each cs g s ≡ (ok tt, s1)
      → (x : Text)
      → place s1 x
        ≡ moved_if (any (λ (c : Client). text_eq c.address x && p c.workspace) cs) w (place s x)
  unfolding for_each
  for_each-Moves p w g k [] s s1 e x = ap (λ q. place q.1 x) (sym e)
  for_each-Moves p w g k (c ∷ cs) s s2 e x =
      let (_, s1, e1, e2) = >>=-ok (g c s) (λ _ t. for_each cs g t) tt s2 e in
      for_each-Moves p w g k cs s1 s2 e2 x
      ∙ ap (moved_if later w) (k c s s1 e1 x)
      ∙ moved_twice w (text_eq c.address x && p c.workspace) later (place s x)
    where
      later : Bool
      later = any (λ (c : Client). text_eq c.address x && p c.workspace) cs

  -- A loop over the whole list of windows: those that were on a workspace that passes the test are
  -- on `w`, and the others stay.
  pub for_each-place :
      (before : Places) (p : WorkspaceId → Bool) (w : WorkspaceId)
      (g : Client → S → Outcome S (Unit {0}))
      → Moves p w g
      → (cs : List Client) → Says before cs
      → Complete before cs
      → (s s1 : S) → for_each cs g s ≡ (ok tt, s1)
      → (x : Text) → place s1 x ≡ moved_if (passes p (before x)) w (place s x)
  for_each-place before p w g k cs says all s s1 e x =
      for_each-Moves p w g k cs s s1 e x
      ∙ ap (λ b. moved_if b w (place s x))
          (any-passes before p x cs says ∙ complete (before x) (all x))
    where
      complete :
          (o : Option WorkspaceId)
          → ((v : WorkspaceId) → o ≡ some v → any (λ (c : Client). text_eq c.address x) cs ≡ true)
          → (any (λ (c : Client). text_eq c.address x) cs && passes p o) ≡ passes p o
      complete none f = ground arith
      complete (some v) f = rw (f v refl) refl

  -- A request for a move, under a test.
  pub send-Moves :
      (p : WorkspaceId → Bool) (w : WorkspaceId) (r : Client → Request)
      → ((c : Client) → move_of (r c) ≡ some (c.address, w))
      → Moves p w (λ c s. if p c.workspace then send h (r c) s else (ok tt, s))
  send-Moves p w r k c s s1 e x = by (p c.workspace) e
    where
      choose : Bool → Option WorkspaceId
      choose b = moved_if b w (place s x)

      by :
          (b : Bool)
          → (if b then send h (r c) s else (ok tt, s)) ≡ (ok tt, s1)
          → place s1 x ≡ moved_if (text_eq c.address x && b) w (place s x)
      by true d =
          moved (r c) c.address w s s1 (k c) d x ∙ ap choose (sym (and_true (text_eq c.address x)))
      by false d = ap (λ q. place q.1 x) (sym d) ∙ ap choose (sym (and_false (text_eq c.address x)))

  -- A loop over the windows of the list that pass a test.
  for_each-filter :
      (q : Client → Bool) (g : Client → S → Outcome S (Unit {0})) (cs : List Client) (s : S)
      → for_each (filter q cs) g s ≡ for_each cs (λ c t. if q c then g c t else (ok tt, t)) s
  unfolding for_each
  for_each-filter q g [] s = refl
  for_each-filter q g (c ∷ cs) s = by (for_each-filter q g cs) (q c)
    where
      by :
          ((t : S)
            → for_each (filter q cs) g t ≡ for_each cs (λ d u. if q d then g d u else (ok tt, u)) t)
          → (b : Bool)
          → for_each (if b then c ∷ filter q cs else filter q cs) g s ≡ (
              (if b then g c s else (ok tt, s)) >>= λ _ t.
              for_each cs (λ d u. if q d then g d u else (ok tt, u)) t)
      by ih true = ap (λ f. g c s >>= f) (fun_ext λ _. fun_ext λ t. ih t)
      by ih false = ih s

  -- A loop over the windows of one workspace, which moves them to another.
  pub for_each_on-place :
      (before : Places) (a w : WorkspaceId) (cs : List Client)
      → Says before cs
      → Complete before cs
      → (s s1 : S)
      → for_each
          (filter (λ (c : Client). eq_ℤ c.workspace a) cs)
          (λ c. send h (Request.move_window_silent c.address w))
          s
        ≡ (ok tt, s1)
      → (x : Text) → place s1 x ≡ moved_if (passes (λ v. eq_ℤ v a) (before x)) w (place s x)
  for_each_on-place before a w cs says all s s1 e x =
      for_each-place before (λ v. eq_ℤ v a) w _
        (send-Moves (λ v. eq_ℤ v a) w (λ c. Request.move_window_silent c.address w) (λ c. refl)) cs
        says all s s1
        (sym (
            for_each-filter (λ (c : Client). eq_ℤ c.workspace a)
              (λ (c : Client). send h (Request.move_window_silent c.address w)) cs s)
          ∙ e)
        x
