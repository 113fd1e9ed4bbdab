-- ===== src/Hypr/Ipc/RoundTrip.antt =====
-- Commands are read back from their text: what a client writes is what the daemon reads.
use foundrix.Base.{
  ℕ, ◌≤◌, ◌≡◌, ◌≢◌, refl, sym, ap, ◌∙◌, subst, true, false, List, [], ◌∷◌, some, All, All-map,
  if-cases, arith, Text, text_eq, codes, trim, split_whitespace, join_words, decimal,
  parse_unsigned, parse_digits, is_whitespace, is_ascii_digit, is_empty, Result, ok, ◌>>=◌,
  >>=-eq-ok, ok_or,
}
use foundrix.Base.WordLaws.{
  IsWord, split_whitespace-All, parse_digits-decimal, decimal-All, decimal-cons,
}
use foundrix.Hypr.Ids.{new}
use foundrix.Hypr.Ipc.{
  Command, switch, move_to, CommandError, invalid_command, parse_bool_arg, validate_workspace,
  workspace_arg, unary_command, parse_parts, parse_command, display,
}
use foundrix.Hypr.Ipc.Canonical.{
  Canonical, Canonical-read, two, is_word, IsWord-is_word, Read, accept, refuse, bare-Canonical,
  collapse-Canonical, swap-Canonical, debug-Canonical, pattern-Canonical,
}

parse_unsigned-digits :
    (c : ℕ) (s : Text)
    → is_ascii_digit c ≡ true
    → parse_unsigned 10 255 (c ∷ s) ≡ parse_digits 10 255 0 (c ∷ s)
unfolding parse_unsigned is_ascii_digit
parse_unsigned-digits c [] h = ground arith
parse_unsigned-digits c (d ∷ s) h = ground arith

-- The digits of a byte are a word, which is read as the byte.
parse_unsigned-decimal : (n : ℕ) → n ≤ 255 → parse_unsigned 10 255 (decimal n) ≡ some n
parse_unsigned-decimal n le = by (decimal-cons n)
  where
    by : ((c : ℕ) × (s : Text) × (decimal n ≡ c ∷ s)) → parse_unsigned 10 255 (decimal n) ≡ some n
    by (c, s, e) =
        ap (parse_unsigned 10 255) e
        ∙ parse_unsigned-digits c s (subst (All (λ x. is_ascii_digit x ≡ true)) e (decimal-All n)).0
        ∙ ap (parse_digits 10 255 0) (sym e)
        ∙ parse_digits-decimal 255 n le

decimal-IsWord : (n : ℕ) → IsWord (decimal n)
decimal-IsWord n = (by (decimal-cons n), All-map not_space (decimal n) (decimal-All n))
  where
    by : ((c : ℕ) × (s : Text) × (decimal n ≡ c ∷ s)) → is_empty (decimal n) ≡ false
    by (c, s, e) = ap is_empty e

    not_space : (c : ℕ) → is_ascii_digit c ≡ true → is_whitespace c ≡ false
    not_space c h = unfold is_ascii_digit is_whitespace in ground arith

-- A number that `validate_workspace` lets through.
validate_workspace-range :
    (n v : ℕ) → validate_workspace n ≡ ok v → (n ≡ v) × (v ≤ 255) × (validate_workspace v ≡ ok v)
unfolding validate_workspace new
validate_workspace-range n v h = (ground arith, ground arith, ground arith)

workspace_arg-decimal :
    (v : ℕ) (make : ℕ → Command)
    → v ≤ 255
    → validate_workspace v ≡ ok v
    → (s : Text) → workspace_arg s make (decimal v) ≡ ok (make v)
unfolding workspace_arg
workspace_arg-decimal v make le h s = rw (parse_unsigned-decimal v le, h) refl

module _ (c : Command) where
  workspace-Canonical :
      (make : ℕ → Command)
      → ((v : ℕ) → v ≤ 255 → validate_workspace v ≡ ok v → Canonical (make v))
      → (s a : Text) → Read c (workspace_arg s make a)
  unfolding workspace_arg
  workspace-Canonical make k s a e =
      by (>>=-eq-ok (ok_or (parse_unsigned 10 255 a) (invalid_command s)) _ e)
    where
      by :
          ((n : ℕ) × (ok_or (parse_unsigned 10 255 a) (invalid_command s) ≡ ok n)
            × ((validate_workspace n >>= λ v. ok (make v)) ≡ ok c))
          → Canonical c
      by (n, _, f) = valid (>>=-eq-ok (validate_workspace n) (λ v. ok (make v)) f)
        where
          valid :
              ((v : ℕ) × (validate_workspace n ≡ ok v)
                × Path (Result Command CommandError) (ok (make v)) (ok c))
              → Canonical c
          valid (v, g, i) =
              accept c (make v)
                (k v (validate_workspace-range n v g).1 (validate_workspace-range n v g).2) i

switch-Canonical : (v : ℕ) → v ≤ 255 → validate_workspace v ≡ ok v → Canonical (switch v)
unfolding unary_command display codes is_whitespace text_eq is_word
switch-Canonical v le h =
    two (codes "switch") (decimal v) _ refl (IsWord-is_word (codes "switch") refl)
      (decimal-IsWord v) (workspace_arg-decimal v switch le h)

move_to-Canonical : (v : ℕ) → v ≤ 255 → validate_workspace v ≡ ok v → Canonical (move_to v)
unfolding unary_command display codes is_whitespace text_eq is_word
move_to-Canonical v le h =
    two (codes "move") (decimal v) _ refl (IsWord-is_word (codes "move") refl) (decimal-IsWord v)
      (workspace_arg-decimal v move_to le h)

unary-Canonical : (c : Command) (s w a : Text) → IsWord a → Read c (unary_command s w a)
unfolding unary_command
unary-Canonical c s w a h =
    if-cases (Read c) (text_eq w (codes "switch")) _ _
      (λ _. workspace-Canonical c switch switch-Canonical s a)
      (λ _.
        if-cases (Read c) (text_eq w (codes "move")) _ _
          (λ _. workspace-Canonical c move_to move_to-Canonical s a)
          (λ _.
            if-cases (Read c) (text_eq w (codes "collapse")) _ _ (λ _. collapse-Canonical c s a)
              (λ _.
                if-cases (Read c) (text_eq w (codes "swap")) _ _ (λ _. swap-Canonical c s a)
                  (λ _.
                    if-cases (Read c) (text_eq w (codes "debug")) _ _
                      (λ _. debug-Canonical c s (parse_bool_arg a))
                      (λ _. pattern-Canonical c s w (a ∷ []) refl (h, tt))))))

parse_parts-Canonical :
    (c : Command) (s : Text) (ws : List Text) → All IsWord ws → Read c (parse_parts s ws)
unfolding parse_parts
parse_parts-Canonical c s [] h = refuse c _
parse_parts-Canonical c s (w ∷ []) h = bare-Canonical c s w
parse_parts-Canonical c s (w ∷ a ∷ []) (_, (h, _)) = unary-Canonical c s w a h
parse_parts-Canonical c s (w ∷ a ∷ b ∷ args) (_, h) = pattern-Canonical c s w (a ∷ b ∷ args) refl h

-- The words of an accepted command's text.
pub display-words :
    (s : Text) (c : Command)
    → parse_command s ≡ ok c
    → (w : Text) × (ws : List Text) × (display c ≡ join_words (w ∷ ws)) × All IsWord (w ∷ ws)
display-words s c h =
    by (parse_parts-Canonical c s _ (split_whitespace-All (trim s)) (unfold parse_command in h))
  where
    refused : parse_parts [] [] ≢ ok c
    refused q = unfold parse_parts in cc

    by :
        Canonical c
        → (w : Text) × (ws : List Text) × (display c ≡ join_words (w ∷ ws)) × All IsWord (w ∷ ws)
    by ([], e, h, r) = absurd (refused (r []))
    by (w ∷ ws, e, h, r) = (w, ws, e, h)

-- Every command that the daemon accepts, whatever the text it came in, is read back from the text
-- that a client writes for it.
pub parse_command-display :
    (s : Text) (c : Command) → parse_command s ≡ ok c → parse_command (display c) ≡ ok c
parse_command-display s c h =
    Canonical-read c (parse_parts-Canonical c s _ (split_whitespace-All (trim s)) opened)
  where
    opened : parse_parts s (split_whitespace (trim s)) ≡ ok c
    opened = unfold parse_command in h
