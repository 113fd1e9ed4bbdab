-- ===== src/Hypr/Ipc/Canonical.antt =====
-- Commands whose text is made of words: those without a number.
use foundrix.Base.{
  not, ◌&&◌, all-All, to_lowercase, lower, ◌+◌, ◌≤◌, ◌==◌, ◌≡◌, ◌≢◌, refl, ap, ◌∙◌, subst, Bool,
  true, false, List, [], ◌∷◌, ◌++◌, Option, none, some, All, All-map, if-cases, arith, Text,
  text_eq, codes, trim, split_whitespace, join_words, is_whitespace, is_empty, Result, ok, err,
  ◌>>=◌,
}
use foundrix.Base
use foundrix.Base.WordLaws.{IsWord, split_whitespace-join_words, trim-join_words}
use foundrix.Hypr.Ipc.{
  Direction, all, invisible, Command, navigate, collapse, swap, assign, pin, unpin, pins, debug,
  CommandError, parse_bool_arg, debug_arg, bare_command, collapse_arg, swap_arg, pattern_command,
  unary_command, parse_parts, parse_command, display,
}

-- A command whose text is made of words that are read as the command.
abbrev pub Canonical : Command → Type 0
Canonical c =
    (ws : List Text) × (display c ≡ join_words ws)
    × All IsWord ws
    × ((s : Text) → parse_parts s ws ≡ ok c)

pub Canonical-read : (c : Command) → Canonical c → parse_command (display c) ≡ ok c
unfolding parse_command
Canonical-read c (ws, e, h, r) =
    ap (λ t. parse_parts (display c) (split_whitespace (trim t))) e
    ∙ ap (λ t. parse_parts (display c) (split_whitespace t)) (trim-join_words ws h)
    ∙ ap (parse_parts (display c)) (split_whitespace-join_words ws h)
    ∙ r (display c)

ok-inj : {x c : Command} → Path (Result Command CommandError) (ok x) (ok c) → x ≡ c
ok-inj e = cc

-- The commands without an argument of their own.
module _ where
  one :
      (w : Text) (c : Command)
      → display c ≡ w
      → IsWord w
      → ((s : Text) → bare_command s w ≡ ok c)
      → Canonical c
  unfolding parse_parts join_words
  one w c e h r = (w ∷ [], e, (h, tt), r)

  pub two :
      (w a : Text) (c : Command)
      → display c ≡ w ++ b' ' ∷ a
      → IsWord w
      → IsWord a
      → ((s : Text) → unary_command s w a ≡ ok c)
      → Canonical c
  unfolding parse_parts join_words
  two w a c e h k r = (w ∷ a ∷ [], e, (h, (k, tt)), r)

unfoldable pub is_word : Text → Bool
is_word w = not (is_empty w) && Base.all (λ c. not (is_whitespace c)) w

pub IsWord-is_word : (w : Text) → is_word w ≡ true → IsWord w
unfolding is_word
IsWord-is_word w h = (
  ground arith,
  All-map (λ c k. ground arith) w (all-All (λ c. not (is_whitespace c)) w (ground arith)),
)

-- The result of a branch that succeeds, and of one that fails.
module _ (c : Command) where
  abbrev pub Read : Result Command CommandError → Type 0
  Read r = r ≡ ok c → Canonical c

  pub accept : (x : Command) → Canonical x → Read (ok x)
  accept x k e = subst Canonical (ok-inj e) k

  pub refuse : (x : CommandError) → Read (err x)
  refuse x e = cc

  pub bare-Canonical : (s w : Text) → Read (bare_command s w)
  unfolding bare_command display codes is_whitespace text_eq is_word
  bare-Canonical s w =
      if-cases Read (text_eq w (codes "next")) _ _
        (λ _.
          accept (navigate Direction.next)
            (one (codes "next") _ refl (IsWord-is_word (codes "next") refl) (λ _. refl)))
        (λ _.
          if-cases Read (text_eq w (codes "prev")) _ _
            (λ _.
              accept (navigate Direction.prev)
                (one (codes "prev") _ refl (IsWord-is_word (codes "prev") refl) (λ _. refl)))
            (λ _.
              if-cases Read (text_eq w (codes "assign")) _ _
                (λ _.
                  accept assign (
                    one (codes "assign") _ refl (IsWord-is_word (codes "assign") refl) (λ _. refl)))
                (λ _.
                  if-cases Read (text_eq w (codes "pins")) _ _
                    (λ _.
                      accept pins (
                        one (codes "pins") _ refl (IsWord-is_word (codes "pins") refl) (λ _. refl)))
                    (λ _. refuse _))))

  pub collapse-Canonical : (s a : Text) → Read (collapse_arg s a)
  unfolding unary_command collapse_arg display codes is_whitespace text_eq is_word
  collapse-Canonical s a =
      if-cases Read (text_eq a (codes "all")) _ _
        (λ _. accept (collapse all) (
          two (codes "collapse") (codes "all") _ refl (IsWord-is_word (codes "collapse") refl)
            (IsWord-is_word (codes "all") refl) (λ _. refl)))
        (λ _.
          if-cases Read (text_eq a (codes "invisible")) _ _
            (λ _. accept (collapse invisible) (
              two (codes "collapse") (codes "invisible") _ refl
                (IsWord-is_word (codes "collapse") refl) (IsWord-is_word (codes "invisible") refl)
                (λ _. refl)))
            (λ _. refuse _))

  pub swap-Canonical : (s a : Text) → Read (swap_arg s a)
  unfolding unary_command swap_arg display codes is_whitespace text_eq is_word
  swap-Canonical s a =
      if-cases Read (text_eq a (codes "next")) _ _
        (λ _. accept (swap Direction.next) (
          two (codes "swap") (codes "next") _ refl (IsWord-is_word (codes "swap") refl)
            (IsWord-is_word (codes "next") refl) (λ _. refl)))
        (λ _.
          if-cases Read (text_eq a (codes "prev")) _ _
            (λ _. accept (swap Direction.prev) (
              two (codes "swap") (codes "prev") _ refl (IsWord-is_word (codes "swap") refl)
                (IsWord-is_word (codes "prev") refl) (λ _. refl)))
            (λ _. refuse _))

  pub debug-Canonical : (s : Text) (o : Option Bool) → Read (debug_arg s o)
  unfolding unary_command parse_bool_arg to_lowercase lower display codes is_whitespace text_eq
      is_word
  debug-Canonical s none = refuse _
  debug-Canonical s (some true) = accept (debug true) (
      two (codes "debug") (codes "on") _ refl (IsWord-is_word (codes "debug") refl)
        (IsWord-is_word (codes "on") refl) (λ _. refl))
  debug-Canonical s (some false) = accept (debug false) (
      two (codes "debug") (codes "off") _ refl (IsWord-is_word (codes "debug") refl)
        (IsWord-is_word (codes "off") refl) (λ _. refl))

  pub pattern-Canonical :
      (s w : Text) (args : List Text)
      → is_empty args ≡ false
      → All IsWord args
      → Read (pattern_command s w args)
  unfolding parse_parts unary_command pattern_command display codes is_whitespace text_eq is_word
      join_words
  pattern-Canonical s w [] ne h = cc
  pattern-Canonical s w (a ∷ []) ne h =
      if-cases Read (text_eq w (codes "pin")) _ _
        (λ _.
          accept (pin a)
            (codes "pin" ∷ a ∷ [], refl, (IsWord-is_word (codes "pin") refl, h), λ _. refl))
        (λ _.
          if-cases Read (text_eq w (codes "unpin")) _ _
            (λ _.
              accept (unpin a)
                (codes "unpin" ∷ a ∷ [], refl, (IsWord-is_word (codes "unpin") refl, h), λ _. refl))
            (λ _. refuse _))
  pattern-Canonical s w (a ∷ b ∷ args) ne h =
      if-cases Read (text_eq w (codes "pin")) _ _
        (λ _.
          accept (pin (join_words (a ∷ b ∷ args)))
            (codes "pin" ∷ a ∷ b ∷ args, refl, (IsWord-is_word (codes "pin") refl, h), λ _. refl))
        (λ _.
          if-cases Read (text_eq w (codes "unpin")) _ _
            (λ _. accept (unpin (join_words (a ∷ b ∷ args))) (
              codes "unpin" ∷ a ∷ b ∷ args,
              refl,
              (IsWord-is_word (codes "unpin") refl, h),
              λ _. refl,
            ))
            (λ _. refuse _))
