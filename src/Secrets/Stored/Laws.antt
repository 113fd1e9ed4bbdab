-- ===== src/Secrets/Stored/Laws.antt =====
-- `accept_submission`: what it accepts, and what it gives back.
use foundrix.Base.{
  ◌≡◌, refl, ap, subst, ◌⊎◌, inl, inr, true, false, List, [], ◌∷◌, map, none, some, arith, All,
  All-map, Text, collect_from, text_eq, text_eq_iff, Dict, lookup, insert, lookup-insert, ok,
  >>=-eq-ok,
}
use foundrix.Secrets.Spec.{FieldSpec, SecretSpec, field, is_some}
use foundrix.Secrets.Env.{check_field_value}
use foundrix.Secrets.Stored.{gather, pick, accept_submission}

-- The pair stands in the list.
abbrev pub Has : Text × Text → List (Text × Text) → Type 0
Has kv [] = ⊥
Has kv (x ∷ xs) = (x ≡ kv) ⊎ Has kv xs

-- The dictionary has this value under this key.
abbrev pub Agrees : Dict Text → Text × Text → Type 0
Agrees m kv = lookup kv.0 m ≡ some kv.1

abbrev pub Accepted : Text × Text → Type 0
Accepted kv = check_field_value kv.1 ≡ ok tt

pub record Picked (submitted : Dict Text) (fs : List FieldSpec) (out : List (Text × Text))
    : Type 0 where
  pub names : map (λ kv. kv.0) out ≡ map (λ f. f.name) fs
  pub agree : All (Agrees submitted) out
  pub accepted : All Accepted out

pub pick-Picked :
    (submitted : Dict Text) (fs : List FieldSpec) (out : List (Text × Text))
    → pick submitted fs ≡ ok out
    → Picked submitted fs out
unfolding pick
pick-Picked m [] out h =
    let e : out ≡ [] = ground arith in rw e (record { names = refl; agree = tt; accepted = tt })
pick-Picked m (f ∷ fs) [] h = ground arith
pick-Picked m (f ∷ fs) (kv ∷ out) h = ground (arith, pick-Picked m fs out)

-- Each gathered value was submitted.
gather-Has :
    (spec : SecretSpec) (values : List (Text × Text)) (m out : Dict Text) (k v : Text)
    → gather spec values m ≡ ok out
    → lookup k out ≡ some v
    → Has (k, v) values ⊎ (lookup k m ≡ some v)
unfolding gather
gather-Has spec [] m out k v h q = ground arith
gather-Has spec ((j, w) ∷ values) m out k v h q =
    ground
      (arith, gather-Has spec values (insert j w m) out k v, lookup-insert j k w m, text_eq_iff j k)

Agrees-Has :
    (spec : SecretSpec) (values : List (Text × Text)) (submitted : Dict Text)
    → gather spec values [] ≡ ok submitted
    → (kv : Text × Text) → Agrees submitted kv
    → Has kv values
unfolding lookup
Agrees-Has spec values submitted h (k, v) q = elim (gather-Has spec values [] submitted k v h q) [
  | inl here ↦ here
  | inr nowhere ↦ cc
]

pub record IsAnswer (spec : SecretSpec) (values out : List (Text × Text)) : Type 0 where
  pub names : map (λ kv. kv.0) out ≡ map (λ f. f.name) spec.fields
  pub submitted : All (λ kv. Has kv values) out
  pub accepted : All Accepted out

-- What `accept_submission` gives back has a value for each declared field, in the declared order,
-- each of them submitted under that name, not blank and without control characters.
pub accept_submission-IsAnswer :
    (spec : SecretSpec) (values out : List (Text × Text))
    → accept_submission spec values ≡ ok out
    → IsAnswer spec values out
unfolding accept_submission
accept_submission-IsAnswer spec values out h =
    let (m, gathered, picked) = >>=-eq-ok (gather spec values []) (λ m. pick m spec.fields) h in
    let p = pick-Picked m spec.fields out picked in
    record {
      names = p.names;
      submitted = All-map (Agrees-Has spec values m gathered) out p.agree;
      accepted = p.accepted;
    }

-- The names differ from one another.
abbrev pub Distinct : List (Text × Text) → Type 0
Distinct [] = Unit {0}
Distinct (kv ∷ kvs) = All (λ x. text_eq kv.0 x.0 ≡ false) kvs × Distinct kvs

gather-collect_from :
    (spec : SecretSpec) (values : List (Text × Text)) (m : Dict Text)
    → All (λ kv. is_some (field spec kv.0) ≡ true) values
    → Distinct values
    → All (λ kv. lookup kv.0 m ≡ none) values
    → gather spec values m ≡ ok (collect_from m values)
unfolding gather collect_from
gather-collect_from spec [] m known distinct new = refl
gather-collect_from spec ((k, v) ∷ values) m (hk, known) (dk, distinct) (nk, new) =
    rw (hk, nk)
      (gather-collect_from spec values (insert k v m) known distinct (still values dk new))
  where
    still :
        (xs : List (Text × Text))
        → All (λ x. text_eq k x.0 ≡ false) xs
        → All (λ kv. lookup kv.0 m ≡ none) xs
        → All (λ kv. lookup kv.0 (insert k v m) ≡ none) xs
    still [] d n = tt
    still (x ∷ xs) (d, ds) (n, ns) = (rw (lookup-insert, d) n, still xs ds ns)

collect_from-keep :
    (xs : List (Text × Text)) (m : Dict Text) (k v : Text)
    → All (λ x. text_eq k x.0 ≡ false) xs
    → lookup k m ≡ some v
    → lookup k (collect_from m xs) ≡ some v
unfolding collect_from
collect_from-keep [] m k v d h = h
collect_from-keep ((j, w) ∷ xs) m k v (dj, d) h =
    collect_from-keep xs (insert j w m) k v d
      (ground (arith, lookup-insert j k w m, text_eq_iff j k, text_eq_iff k j))

collect_from-Has :
    (xs : List (Text × Text)) (m : Dict Text) (k v : Text)
    → Distinct xs
    → Has (k, v) xs
    → lookup k (collect_from m xs) ≡ some v
unfolding collect_from
collect_from-Has [] m k v d h = absurd h
collect_from-Has ((j, w) ∷ xs) m k v (dj, d) (inl e) =
    let same : j ≡ k = ap (λ (p : Text × Text). p.0) e in
    let value : w ≡ v = ap (λ (p : Text × Text). p.1) e in
    collect_from-keep xs (insert j w m) k v
      (subst (λ n. All (λ x. text_eq n x.0 ≡ false) xs) same dj)
      (ground (arith, lookup-insert j k w m, text_eq_iff j k))
collect_from-Has ((j, w) ∷ xs) m k v (dj, d) (inr h) = collect_from-Has xs (insert j w m) k v d h

pick_complete :
    (m : Dict Text) (fs : List FieldSpec)
    → All (λ f. (v : Text) × (lookup f.name m ≡ some v) × Accepted (f.name, v)) fs
    → (out : List (Text × Text)) × (pick m fs ≡ ok out)
unfolding pick
pick_complete m [] h = ([], refl)
pick_complete m (f ∷ fs) ((v, found, good), h) =
    let (rest, e) = pick_complete m fs h in ((f.name, v) ∷ rest, rw (found, good, e))

-- A form that names only declared fields, none of them twice, with an acceptable value for each
-- declared field, is accepted.
pub accept_submission_complete :
    (spec : SecretSpec) (values : List (Text × Text))
    → All (λ kv. is_some (field spec kv.0) ≡ true) values
    → Distinct values
    → All (λ f. (v : Text) × Has (f.name, v) values × Accepted (f.name, v)) spec.fields
    → (out : List (Text × Text)) × (accept_submission spec values ≡ ok out)
unfolding accept_submission
accept_submission_complete spec values known distinct each =
    let (out, e) =
      pick_complete (collect_from [] values) spec.fields (All-map found spec.fields each) in
    (out, rw (gather-collect_from spec values [] known distinct (none_yet values)) e)
  where
    none_yet : (xs : List (Text × Text)) → All (λ kv. lookup {V = Text} kv.0 [] ≡ none) xs
    none_yet [] = tt
    none_yet (x ∷ xs) = (unfold lookup in refl, none_yet xs)

    found :
        (f : FieldSpec)
        → (v : Text) × Has (f.name, v) values × Accepted (f.name, v)
        → (v : Text) × (lookup f.name (collect_from [] values) ≡ some v) × Accepted (f.name, v)
    found f (v, h, good) = (v, collect_from-Has values [] f.name v distinct h, good)
