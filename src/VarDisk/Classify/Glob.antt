-- ===== src/VarDisk/Classify/Glob.antt =====
-- The volume glob: which texts are accepted, and as what.
use foundrix.Base.{
  ℕ, ==_iff, subst, ◌≡◌, ◌≢◌, refl, sym, ap, ◌∙◌, ◌↔◌, Bool, true, false, ◌||◌, List, [], ◌∷◌, ◌++◌,
  Option, none, some, some-inj, Option-cases, arith, All, any, is_empty, Text, strip_last,
  rsplit_once, cons_option, if◌then◌else◌, ◌==◌, inl, inr,
}
use foundrix.VarDisk.Classify.{is_wildcard, both_nonempty, split_rest, split_prefix_glob}

strip_last-snoc : (e : ℕ) (s : Text) → strip_last e (s ++ e ∷ []) ≡ some s
unfolding strip_last
strip_last-snoc e [] = ground arith
strip_last-snoc e (c ∷ []) = ground arith
strip_last-snoc e (c ∷ d ∷ s) = ap (cons_option c) (strip_last-snoc e (d ∷ s))

strip_last-eq : (e : ℕ) (g s : Text) → strip_last e g ≡ some s → g ≡ s ++ e ∷ []
unfolding strip_last
strip_last-eq e [] s h = cc
strip_last-eq e (c ∷ []) s h = ground arith
strip_last-eq e (c ∷ d ∷ g) s h = elim (Option-cases (strip_last e (d ∷ g))) [
  | inl q ↦ ground (arith, q)
  | inr (t, q) ↦ ground (arith, q, strip_last-eq e (d ∷ g) t q)
]

rsplit_once-none : (sep : ℕ) (s : Text) → All (λ c. c ≢ sep) s → rsplit_once sep s ≡ none
unfolding rsplit_once
rsplit_once-none sep [] h = refl
rsplit_once-none sep (c ∷ s) (hc, hs) = ground (arith, rsplit_once-none sep s hs)

none-All : (sep : ℕ) (s : Text) → rsplit_once sep s ≡ none → All (λ c. c ≢ sep) s
unfolding rsplit_once
none-All sep [] h = tt
none-All sep (c ∷ s) h = elim (Option-cases (rsplit_once sep s)) [
  | inl q ↦ (ground (arith, q), none-All sep s q)
  | inr (t, q) ↦ ground (arith, q)
]

rsplit_once-append :
    (sep : ℕ) (a b : Text) → All (λ c. c ≢ sep) b → rsplit_once sep (a ++ sep ∷ b) ≡ some (a, b)
unfolding rsplit_once
rsplit_once-append sep [] b h = ground (arith, rsplit_once-none sep b h)
rsplit_once-append sep (c ∷ a) b h = rw (rsplit_once-append sep a b h) refl

rsplit_once-eq :
    (sep : ℕ) (s a b : Text)
    → rsplit_once sep s ≡ some (a, b)
    → (s ≡ a ++ sep ∷ b) × All (λ c. c ≢ sep) b
unfolding rsplit_once
rsplit_once-eq sep [] a b h = cc
rsplit_once-eq sep (c ∷ s) a b h = by (rsplit_once sep s) refl (rsplit_once-eq sep s) h
  where
    Spelled : Text × Text → Type 0
    Spelled p = (c ∷ s ≡ p.0 ++ sep ∷ p.1) × All (λ x. x ≢ sep) p.1

    here :
        (t : Bool)
        → (c == sep) ≡ t
        → rsplit_once sep s ≡ none
        → Path (Option (Text × Text)) (if t then some ([], s) else none) (some (a, b))
        → Spelled (a, b)
    here true t q e =
        subst Spelled (some-inj e) (ap (λ x. x ∷ s) ((==_iff c sep).0 t), none-All sep s q)
    here false t q e = cc

    by :
        (o : Option (Text × Text))
        → rsplit_once sep s ≡ o
        → ((x y : Text)
            → rsplit_once sep s ≡ some (x, y)
            → (s ≡ x ++ sep ∷ y) × All (λ z. z ≢ sep) y)
        → Path
            (Option (Text × Text))
            (elim o [
              | some (x, y) ↦ some (c ∷ x, y)
              | none ↦ if c == sep then some ([], s) else none
            ])
            (some (a, b))
        → Spelled (a, b)
    by none q ih e = here (c == sep) refl q e
    by (some (x, y)) q ih e = subst Spelled (some-inj e) (ap (◌∷◌ c) (ih x y q).0, (ih x y q).1)

any-append :
    {A : Type 0} (p : A → Bool) (xs ys : List A) → any p (xs ++ ys) ≡ (any p xs || any p ys)
any-append p [] ys = refl
any-append p (x ∷ xs) ys = ground (arith, any-append p xs ys)

-- A volume glob: a directory and a prefix, both of them there and without a wildcard, where the
-- prefix has no slash.
pub record IsGlob (dir prefix : Text) : Type 0 where
  pub some_dir : is_empty dir ≡ false
  pub some_prefix : is_empty prefix ≡ false
  pub plain_dir : any is_wildcard dir ≡ false
  pub plain_prefix : any is_wildcard prefix ≡ false
  pub last_slash : All (λ c. c ≢ b'/') prefix

glob_text : Text → Text → Text
glob_text dir prefix = (dir ++ b'/' ∷ prefix) ++ b'*' ∷ []

split-glob_text :
    (dir prefix : Text)
    → IsGlob dir prefix
    → split_prefix_glob (glob_text dir prefix) ≡ some (dir, prefix)
unfolding split_prefix_glob glob_text
split-glob_text dir prefix g =
    ap split_rest (strip_last-snoc b'*' (dir ++ b'/' ∷ prefix))
    ∙ rw
        (
          any-append is_wildcard dir (b'/' ∷ prefix),
          g.plain_dir,
          g.plain_prefix,
          rsplit_once-append b'/' dir prefix g.last_slash,
          g.some_dir,
          g.some_prefix,
        )
        refl

and-true : (a b : Bool) → (a || b) ≡ false → (a ≡ false) × (b ≡ false)
and-true a b h = ground arith

-- The parts that are let through, and the text that they were taken from.
parts-IsGlob :
    (rest dir prefix : Text)
    → split_rest (some rest) ≡ some (dir, prefix)
    → (rest ≡ dir ++ b'/' ∷ prefix) × IsGlob dir prefix
parts-IsGlob rest dir prefix = by (any is_wildcard rest) refl (rsplit_once b'/' rest) refl
  where
    checked :
        (x y : Text) (e f : Bool)
        → is_empty x ≡ e
        → is_empty y ≡ f
        → any is_wildcard rest ≡ false
        → rsplit_once b'/' rest ≡ some (x, y)
        → Path (Option (Text × Text)) (if e || f then none else some (x, y)) (some (dir, prefix))
        → (rest ≡ dir ++ b'/' ∷ prefix) × IsGlob dir prefix
    checked x y false false e f w q h =
        let spelled = rsplit_once-eq b'/' rest x y q in
        let plain =
          and-true (any is_wildcard x) (any is_wildcard (b'/' ∷ y)) (
            sym (any-append is_wildcard x (b'/' ∷ y)) ∙ ap (any is_wildcard) (sym spelled.0) ∙ w) in
        subst (λ p. (rest ≡ p.0 ++ b'/' ∷ p.1) × IsGlob p.0 p.1) (some-inj h)
          (
            spelled.0,
            record {
              some_dir = e;
              some_prefix = f;
              plain_dir = plain.0;
              plain_prefix = plain.1;
              last_slash = spelled.1;
            },
          )
    checked x y true f e' f' w q h = cc
    checked x y false true e' f' w q h = cc

    by :
        (t : Bool)
        → any is_wildcard rest ≡ t
        → (o : Option (Text × Text)) → rsplit_once b'/' rest ≡ o
        → (if t then none else both_nonempty o) ≡ some (dir, prefix)
        → (rest ≡ dir ++ b'/' ∷ prefix) × IsGlob dir prefix
    by true w o q h = cc
    by false w none q h = cc
    by false w (some (x, y)) q h = checked x y (is_empty x) (is_empty y) refl refl w q h

glob_text-split :
    (glob dir prefix : Text)
    → split_prefix_glob glob ≡ some (dir, prefix)
    → (glob ≡ glob_text dir prefix) × IsGlob dir prefix
unfolding split_prefix_glob glob_text
glob_text-split glob dir prefix = by (strip_last b'*' glob) refl
  where
    by :
        (o : Option Text)
        → strip_last b'*' glob ≡ o
        → split_rest o ≡ some (dir, prefix)
        → (glob ≡ (dir ++ b'/' ∷ prefix) ++ b'*' ∷ []) × IsGlob dir prefix
    by none q h = cc
    by (some rest) q h =
        let parts = parts-IsGlob rest dir prefix h in
        (strip_last-eq b'*' glob rest q ∙ ap (λ r. r ++ b'*' ∷ []) parts.0, parts.1)

-- A glob is accepted as a directory and a prefix exactly if it is spelled as the directory, a slash,
-- the prefix and a star, where the two are not empty and have no wildcard, and the prefix no slash.
pub split_prefix_glob_iff :
    (glob dir prefix : Text)
    → (split_prefix_glob glob ≡ some (dir, prefix))
      ↔ ((glob ≡ (dir ++ b'/' ∷ prefix) ++ b'*' ∷ []) × IsGlob dir prefix)
unfolding glob_text
split_prefix_glob_iff glob dir prefix = (
  glob_text-split glob dir prefix,
  λ (e, g). ap split_prefix_glob e ∙ split-glob_text dir prefix g,
)
