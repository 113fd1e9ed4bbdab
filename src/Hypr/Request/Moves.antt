-- ===== src/Hypr/Request/Moves.antt =====
-- packages/hypr-workspaced/src/request.rs: a reader of the requests that move one window.
use foundrix.Base.{
  ℕ, ◌+◌, ◌≡◌, ◌≢◌, refl, sym, ap, ◌∙◌, subst, true, [], ◌∷◌, ◌++◌, append_assoc, Option, none,
  some, some-inj, All, arith, Text, codes, strip_prefix, ℤ, pos, negsuc, int_text, decimal,
  parse_digits, is_ascii_digit,
}
use foundrix.Base.WordLaws.{parse_digits-decimal, decimal-All}
use foundrix.Hypr.Ids.{WorkspaceId}
use foundrix.Hypr.Request.{Request, kind, lua, command, lua_string, window_text, workspace_text}
use foundrix.Hypr.Request.Reader.{read_literal, read_literal-lua_string}

-- The window and the workspace of a request that moves a window, of either kind.
abbrev pub move_of : Request → Option (Text × WorkspaceId)
move_of (Request.move_window_silent a w) = some (a, w)
move_of (Request.move_window a w) = some (a, w)
move_of _ = none

-- A literal behind a fixed text.
abbrev after_prefix : Option Text → Option (Text × Text)
after_prefix none = none
after_prefix (some t) = read_literal t

unfoldable pub literal_after : Text → Text → Option (Text × Text)
unfolding strip_prefix read_literal
literal_after p t = after_prefix (strip_prefix p t)

abbrev pub with_workspace : Text → Option (Text × Text) → Option (Text × Text)
with_workspace window none = none
with_workspace window (some (workspace, end)) = some (window, workspace)

abbrev pub then_workspace : Option (Text × Text) → Option (Text × Text)
then_workspace none = none
then_workspace (some (window, rest)) =
    with_workspace window (literal_after (codes ", workspace = ") rest)

-- The two literals of a move.
unfoldable pub read_move : Text → Option (Text × Text)
unfolding literal_after codes
read_move t =
    then_workspace
      (literal_after (codes "dispatch" ++ codes " " ++ codes "hl.dsp.window.move({ window = ") t)

pub strip_prefix-append : (p s : Text) → strip_prefix p (p ++ s) ≡ some s
unfolding strip_prefix
strip_prefix-append [] s = refl
strip_prefix-append (c ∷ p) s = ground (arith, strip_prefix-append p s)

literal_after-append :
    (p v rest : Text) → literal_after p (p ++ (lua_string v ++ rest)) ≡ some (v, rest)
unfolding literal_after
literal_after-append p v rest =
    rw (strip_prefix-append p (lua_string v ++ rest)) (read_literal-lua_string v rest)

read_move-text :
    (a w : Text) (end : Text)
    → read_move (
        (codes "dispatch" ++ codes " " ++ codes "hl.dsp.window.move({ window = ")
        ++ (lua_string a ++ (codes ", workspace = " ++ (lua_string w ++ end))))
      ≡ some (a, w)
unfolding read_move
read_move-text a w end =
    ap then_workspace (
      literal_after-append (codes "dispatch" ++ codes " " ++ codes "hl.dsp.window.move({ window = ")
        a (codes ", workspace = " ++ (lua_string w ++ end)))
    ∙ ap (with_workspace a) (literal_after-append (codes ", workspace = ") w end)

regroup :
    (a p l c w end : Text) → a ++ (p ++ l ++ c ++ w ++ end) ≡ (a ++ p) ++ (l ++ (c ++ (w ++ end)))
regroup a p l c w end = simp append_assoc

read_move-moved :
    (b : Text) (v : WorkspaceId) (a : Text) (w : WorkspaceId) (end : Text)
    → Path (Option (Text × WorkspaceId)) (some (b, v)) (some (a, w))
    → read_move (
        codes "dispatch"
        ++ codes " "
        ++ (codes "hl.dsp.window.move({ window = "
            ++ window_text b
            ++ codes ", workspace = "
            ++ workspace_text v
            ++ end))
      ≡ some (codes "address:" ++ a, int_text w)
read_move-moved b v a w end e =
    ap read_move (
      regroup (codes "dispatch" ++ codes " ") (codes "hl.dsp.window.move({ window = ")
        (window_text b) (codes ", workspace = ") (workspace_text v) end)
    ∙ read_move-text (codes "address:" ++ b) (int_text v) end
    ∙ ap (λ (p : Text × WorkspaceId). some (codes "address:" ++ p.0, int_text p.1)) (some-inj e)

-- The command of a move is read as its window and its workspace, whatever they are.
pub read_move-command :
    (r : Request) (a : Text) (w : WorkspaceId)
    → move_of r ≡ some (a, w)
    → read_move (command r) ≡ some (codes "address:" ++ a, int_text w)
unfolding command kind lua
read_move-command (Request.move_window_silent b v) a w e =
    read_move-moved b v a w (codes ", follow = false })") e
read_move-command (Request.move_window b v) a w e = read_move-moved b v a w (codes " })") e
read_move-command (Request.focus_workspace v) a w e = cc
read_move-command (Request.move_active_window v) a w e = cc
read_move-command (Request.move_workspace_to_monitor v t) a w e = cc
read_move-command (Request.focus_window t) a w e = cc
read_move-command (Request.workspace_rule v t d) a w e = cc

decimal-inj : (n m : ℕ) → decimal n ≡ decimal m → n ≡ m
decimal-inj n m e = some-inj (
    sym (parse_digits-decimal (n + m) n (omega arith))
    ∙ ap (parse_digits 10 (n + m) 0) e
    ∙ parse_digits-decimal (n + m) m (omega arith))

-- A number does not begin with a minus.
decimal-ne : (n : ℕ) (s : Text) → decimal n ≢ b'-' ∷ s
decimal-ne n s e = digit (subst (All (λ c. is_ascii_digit c ≡ true)) e (decimal-All n)).0
  where
    digit : is_ascii_digit b'-' ≢ true
    digit h = unfold is_ascii_digit in cc

pub int_text-inj : (v w : ℤ) → int_text v ≡ int_text w → v ≡ w
unfolding int_text
int_text-inj (pos n) (pos m) e = ap pos (decimal-inj n m e)
int_text-inj (pos n) (negsuc m) e = absurd (decimal-ne n (decimal (m + 1)) e)
int_text-inj (negsuc n) (pos m) e = absurd (decimal-ne m (decimal (n + 1)) (sym e))
int_text-inj (negsuc n) (negsuc m) e = ap negsuc (pred (decimal-inj (n + 1) (m + 1) (tail_of e)))
  where
    tail_of : b'-' ∷ decimal (n + 1) ≡ b'-' ∷ decimal (m + 1) → decimal (n + 1) ≡ decimal (m + 1)
    tail_of q = cc

    pred : n + 1 ≡ m + 1 → n ≡ m
    pred q = omega arith

-- Two requests that move a window and have one text, whatever the characters of their addresses,
-- move the same window to the same workspace.
pub command-move :
    (r q : Request) (a b : Text) (v w : WorkspaceId)
    → move_of r ≡ some (a, v)
    → move_of q ≡ some (b, w)
    → command r ≡ command q
    → (a ≡ b) × (v ≡ w)
command-move r q a b v w er eq e = (address, int_text-inj v w (ap (λ p. p.1) same))
  where
    same :
        Path (Text × Text) (codes "address:" ++ a, int_text v) (codes "address:" ++ b, int_text w)
    same = some-inj (sym (read_move-command r a v er) ∙ ap read_move e ∙ read_move-command q b w eq)

    address : a ≡ b
    address = some-inj (
        sym (strip_prefix-append (codes "address:") a)
        ∙ ap (λ p. strip_prefix (codes "address:") p.0) same
        ∙ strip_prefix-append (codes "address:") b)
