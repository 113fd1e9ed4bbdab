-- ===== src/Hypr/Tests/Moving.antt =====
-- The compositor of the desk does with windows what the program relies on.
use mathlib.Core.Option.{map as Option_map}
use foundrix.Base.{
  ◌⊎◌, ℕ, ◌≡◌, ◌≢◌, refl, sym, ap, ◌∙◌, subst, Bool, true, false, List, [], ◌∷◌, Option, none, some,
  All, any, if◌then◌else◌, Bool-cases, inl, inr, some-inj, arith, Text, text_eq, text_eq_iff,
  text_eq_refl, codes, parse_digits, ℤ, pos, int_text, Result, ok,
}
use foundrix.Hypr.Ids.{WorkspaceId}
use foundrix.Hypr.Data.{Client}
use foundrix.Hypr.Request.{Request, command}
use foundrix.Hypr.Request.Moves.{move_of, read_move-command, strip_prefix-append, int_text-inj}
use foundrix.Hypr.Session.{Error, Outcome, check_answer, send, clients, query}
use foundrix.Hypr.Manager.Placed.{Compositor}
use foundrix.Hypr.Tests.Desk.{
  Desk, one, two, window, place, number_if, number, put, put_at, perform, desk,
}

refused : (n : ℕ) → Option.none ≢ some n
refused n q = cc

number-int_text : (w : ℤ) (n : ℕ) → number (int_text w) ≡ some n → w ≡ pos n
unfolding number
number-int_text w n e = by (parse_digits 10 9999 0 (int_text w)) e
  where
    by : (o : Option ℕ) → number_if (int_text w) o ≡ some n → w ≡ pos n
    by none q = cc
    by (some k) q = elim (Bool-cases (text_eq (int_text (pos k)) (int_text w))) [
      | inl same ↦
          sym (int_text-inj (pos k) w ((text_eq_iff (int_text (pos k)) (int_text w)).0 same))
          ∙ ap pos (some-inj (ap (λ b. if b then some k else none) (sym same) ∙ q))
      | inr other ↦ absurd (refused n (ap (λ b. if b then some k else none) (sym other) ∙ q))
    ]

moved_one :
    (p q : Bool) (n k l : ℕ)
    → (if p then some (pos n) else if q then some (pos l) else none) ≡ (
        if p
        then Option_map (λ _. pos n) (if p then some (pos k) else if q then some (pos l) else none)
        else if p
        then some (pos k)
        else if q
        then some (pos l)
        else none)
moved_one true q n k l = refl
moved_one false q n k l = refl

moved_two :
    (p q : Bool) (n k l : ℕ)
    → (q ≡ true → p ≡ false)
    → (if p then some (pos k) else if q then some (pos n) else none) ≡ (
        if q
        then Option_map (λ _. pos n) (if p then some (pos k) else if q then some (pos l) else none)
        else if p
        then some (pos k)
        else if q
        then some (pos l)
        else none)
moved_two p true n k l apart = rw (apart refl) refl
moved_two p false n k l apart = refl

two-one : (x : Text) → text_eq two x ≡ true → text_eq one x ≡ false
unfolding text_eq
two-one x e = subst (λ y. text_eq one y ≡ false) ((text_eq_iff two x).0 e) refl

-- The window moves, and the other does not.
abbrev Moved : Text → ℕ → Desk → Text → Type 0
Moved x n s b =
    place (put b n s) x ≡ (if text_eq b x then Option_map (λ _. pos n) (place s x) else place s x)

put_one : (x : Text) (n : ℕ) (s : Desk) → Moved x n s one
put_one x n s =
    ap (λ b. place (if b then (n, s.1) else if text_eq two one then (s.0, n) else s) x)
      (text_eq_refl one)
    ∙ moved_one (text_eq one x) (text_eq two x) n s.0 s.1

put_two : (x : Text) (n : ℕ) (s : Desk) → Moved x n s two
put_two x n s =
    ap (λ b. place (if b then (n, s.1) else if text_eq two two then (s.0, n) else s) x)
      (two-one two (text_eq_refl two))
    ∙ ap (λ b. place (if b then (s.0, n) else s) x) (text_eq_refl two)
    ∙ moved_two (text_eq one x) (text_eq two x) n s.0 s.1 (two-one x)

put_other :
    (a x : Text) (n : ℕ) (s : Desk) → text_eq one a ≡ false → text_eq two a ≡ false → Moved x n s a
put_other a x n s not_one not_two =
    ap (λ b. place (if b then (n, s.1) else if text_eq two a then (s.0, n) else s) x) not_one
    ∙ ap (λ b. place (if b then (s.0, n) else s) x) not_two
    ∙ elim (Bool-cases (text_eq a x)) [
      | inl same ↦
          (nowhere same ∙ ap (Option_map (λ _. pos n)) (sym (nowhere same)))
          ∙ ap (λ b. if b then Option_map (λ _. pos n) (place s x) else place s x) (sym same)
      | inr other ↦ rw other refl
    ]
  where
    nowhere : text_eq a x ≡ true → place s x ≡ none
    nowhere same =
        ap (λ b. if b then some (pos s.0) else if text_eq two x then some (pos s.1) else none)
          (subst (λ y. text_eq one y ≡ false) ((text_eq_iff a x).0 same) not_one)
        ∙ ap (λ b. if b then some (pos s.1) else none)
            (subst (λ y. text_eq two y ≡ false) ((text_eq_iff a x).0 same) not_two)

place-put : (a x : Text) (n : ℕ) (s : Desk) → Moved x n s a
place-put a x n s = elim (Bool-cases (text_eq one a)) [
  | inl is ↦ subst (Moved x n s) ((text_eq_iff one a).0 is) (put_one x n s)
  | inr not_one ↦ elim (Bool-cases (text_eq two a)) [
    | inl is ↦ subst (Moved x n s) ((text_eq_iff two a).0 is) (put_two x n s)
    | inr not_two ↦ put_other a x n s not_one not_two
  ]
]

-- A move whose request was answered `ok`.
send-put :
    (r : Request) (a : Text) (w : WorkspaceId) (s s1 : Desk)
    → move_of r ≡ some (a, w)
    → send desk r s ≡ (ok tt, s1)
    → (n : ℕ) × (w ≡ pos n) × (s1 ≡ put a n s)
unfolding send
send-put r a w s s1 e sent = by (number (int_text w)) refl (
    sym (
      ap (λ o. (check_answer desk (command r) (perform o s).0, (perform o s).1))
        (read_move-command r a w e)
      ∙ ap
          (λ o. (
            check_answer desk (command r) (put_at o (number (int_text w)) s).0,
            (put_at o (number (int_text w)) s).1,
          ))
          (strip_prefix-append (codes "address:") a))
    ∙ sent)
  where
    Sent : Option ℕ → Outcome Desk (Unit {0})
    Sent o = (check_answer desk (command r) (put_at (some a) o s).0, (put_at (some a) o s).1)

    by :
        (o : Option ℕ)
        → number (int_text w) ≡ o
        → Sent o ≡ (ok tt, s1)
        → (n : ℕ) × (w ≡ pos n) × (s1 ≡ put a n s)
    by none q t = cc
    by (some n) q t = (n, number-int_text w n q, sym (ap (λ u. u.1) t))

-- A request for a move, whatever its answer.
send-tried :
    (r : Request) (a : Text) (w : WorkspaceId) (s : Desk)
    → move_of r ≡ some (a, w)
    → (x : Text)
    → (place (send desk r s).1 x ≡ place s x)
      ⊎ ((a ≡ x) × (place (send desk r s).1 x ≡ Option_map (λ _. w) (place s x)))
unfolding send
send-tried r a w s e x =
    subst Tried
      (sym (
        ap (λ o. (perform o s).1) (read_move-command r a w e)
        ∙ ap (λ o. (put_at o (number (int_text w)) s).1)
            (strip_prefix-append (codes "address:") a)))
      (by (number (int_text w)) refl)
  where
    Tried : Desk → Type 0
    Tried t = (place t x ≡ place s x) ⊎ ((a ≡ x) × (place t x ≡ Option_map (λ _. w) (place s x)))

    moved_or :
        (n : ℕ) (b : Bool)
        → w ≡ pos n
        → text_eq a x ≡ b
        → place (put a n s) x ≡ (if b then Option_map (λ _. pos n) (place s x) else place s x)
        → Tried (put a n s)
    moved_or n true q t d =
        inr ((text_eq_iff a x).0 t, d ∙ ap (λ v. Option_map (λ _. v) (place s x)) (sym q))
    moved_or n false q t d = inl d

    by : (o : Option ℕ) → number (int_text w) ≡ o → Tried (put_at (some a) o s).1
    by none q = inl refl
    by (some n) q = moved_or n (text_eq a x) (number-int_text w n q) refl (place-put a x n s)

abbrev windows_of : Desk → List Client
windows_of s = window one s.0 ∷ window two s.1 ∷ []

both_listed :
    (s : Desk) (x : Text) (w : WorkspaceId)
    → place s x ≡ some w
    → any (λ (c : Client). text_eq c.address x) (windows_of s) ≡ true
both_listed s x w e = ground arith

there_one : (s : Desk) → place s one ≡ some (pos s.0)
unfolding text_eq
there_one s = refl

there_two : (s : Desk) → place s two ≡ some (pos s.1)
unfolding text_eq
there_two s = refl

pub desk-Compositor : Compositor desk place
unfolding codes clients query
desk-Compositor = record {
  asked = λ request s x. refl;
  moved = λ r a w s s1 e sent x.
      let (n, number_of, after) = send-put r a w s s1 e sent in
      ap (λ t. place t x) after
      ∙ place-put a x n s
      ∙ ap (λ v. if text_eq a x then Option_map (λ _. v) (place s x) else place s x)
          (sym number_of);
  tried = send-tried;
  listed = λ s s1 cs e.
      subst (Listed s) (listed_as s s1 cs e) ((there_one s, (there_two s, tt)), both_listed s);
}
  where
    Listed : Desk → List Client → Type 0
    Listed s cs =
        All (λ (c : Client). place s c.address ≡ some c.workspace) cs
        × ((x : Text) (w : WorkspaceId)
            → place s x ≡ some w
            → any (λ (c : Client). text_eq c.address x) cs ≡ true)

    some_ok : {cs ds : List Client} → Path (Result (List Client) Error) (ok cs) (ok ds) → cs ≡ ds
    some_ok q = cc

    listed_as : (s s1 : Desk) (cs : List Client) → clients desk s ≡ (ok cs, s1) → windows_of s ≡ cs
    listed_as s s1 cs e = some_ok (ap (λ (o : Outcome Desk (List Client)). o.0) e)
