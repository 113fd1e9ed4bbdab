-- ===== src/Secrets/Stored/Saved.antt =====
-- A form that was accepted and written to the env-file is found complete when it is read again.
use foundrix.Base.{
  ◌≡◌, ap, ◌∙◌, true, List, [], ◌∷◌, ◌++◌, append_assoc, append-nil, map, some, arith, All, Text,
  text_eq_iff, Dict, lookup, insert, lookup-insert, collect, collect_from, ok, >>=-eq-ok,
}
use foundrix.Secrets.Spec.{FieldSpec, SecretSpec, check_keys, is_valid_key}
use foundrix.Secrets.Env.{encode_env_file, parse_env_file, check_field_value}
use foundrix.Secrets.Env.RoundTrip.{IsEntry}
use foundrix.Secrets.Env.File.{parse_env_file-encode_env_file}
use foundrix.Secrets.Stored.{
  Missing, classify_fields, classify_stored, complete, gather, pick, accept_submission,
}
use foundrix.Secrets.Stored.Laws.{Agrees, Accepted, pick-Picked}

-- Pairs that agree with one dictionary leave what they agree on.
collect_from-agree :
    (source : Dict Text) (xs : List (Text × Text)) (m : Dict Text) (k v : Text)
    → All (Agrees source) xs
    → lookup k source ≡ some v
    → lookup k m ≡ some v
    → lookup k (collect_from m xs) ≡ some v
unfolding collect_from
collect_from-agree source [] m k v h q r = r
collect_from-agree source ((j, w) ∷ xs) m k v (hj, h) q r =
    collect_from-agree source xs (insert j w m) k v h q
      (ground (arith, lookup-insert j k w m, text_eq_iff j k))

collect_from-Agrees :
    (source : Dict Text) (xs : List (Text × Text)) (m : Dict Text)
    → All (Agrees source) xs
    → All (Agrees (collect_from m xs)) xs
unfolding collect_from
collect_from-Agrees source [] m h = tt
collect_from-Agrees source ((j, w) ∷ xs) m (hj, h) = (
  collect_from-agree source xs (insert j w m) j w h hj
      (ground (arith, lookup-insert j j w m, text_eq_iff j j)),
  collect_from-Agrees source xs (insert j w m) h,
)

pick-cons :
    (m : Dict Text) (f : FieldSpec) (fs : List FieldSpec) (kv : Text × Text)
    (out : List (Text × Text))
    → pick m (f ∷ fs) ≡ ok (kv ∷ out)
    → (f.name ≡ kv.0) × (check_field_value kv.1 ≡ ok tt) × (pick m fs ≡ ok out)
unfolding pick
pick-cons m f fs kv out h = (ground arith, ground arith, ground arith)

classify_fields-cons :
    (parsed : Dict Text) (f : FieldSpec) (fs : List FieldSpec) (v : Text)
    (values : List (Text × Text)) (usable : Dict Text) (missing : List Missing)
    → lookup f.name parsed ≡ some v
    → check_field_value v ≡ ok tt
    → classify_fields parsed (f ∷ fs) values usable missing
      ≡ classify_fields parsed fs (values ++ (f.name, v) ∷ []) (insert f.name v usable) missing
unfolding classify_fields
classify_fields-cons parsed f fs v values usable missing found good = ground arith

classify_fields-complete :
    (parsed submitted : Dict Text) (fs : List FieldSpec) (out values : List (Text × Text))
    (usable : Dict Text)
    → pick submitted fs ≡ ok out
    → All (Agrees parsed) out
    → classify_fields parsed fs values usable [] ≡ complete (values ++ out)
unfolding classify_fields pick
classify_fields-complete parsed m [] out values usable h a =
    let e : out ≡ [] = ground arith in rw (e, append-nil)
classify_fields-complete parsed m (f ∷ fs) [] values usable h a = ground arith
classify_fields-complete parsed m (f ∷ fs) (kv ∷ out) values usable h (hv, a) =
    let (name, good, rest) = pick-cons m f fs kv out h in
    let step = classify_fields-cons parsed f fs kv.1 values usable [] (rw name hv) good in
    let same : values ++ (f.name, kv.1) ∷ [] ≡ values ++ kv ∷ [] =
      λ i. values ++ (name i, kv.1) ∷ [] in
    step
    ∙ classify_fields-complete parsed m fs out (values ++ (f.name, kv.1) ∷ [])
        (insert f.name kv.1 usable) rest a
    ∙ ap complete (ap (λ x. x ++ out) same ∙ append_assoc values (kv ∷ []) out)

keys-valid :
    (secret : Text) (fs : List FieldSpec)
    → check_keys secret fs ≡ ok tt
    → All (λ f. is_valid_key f.name ≡ true) fs
unfolding check_keys
keys-valid secret [] h = tt
keys-valid secret (f ∷ fs) h = (ground arith, keys-valid secret fs (ground arith))

entries :
    (fs : List FieldSpec) (out : List (Text × Text))
    → map (λ kv. kv.0) out ≡ map (λ f. f.name) fs
    → All (λ f. is_valid_key f.name ≡ true) fs
    → All Accepted out
    → All IsEntry out
entries fs [] e k a = tt
entries [] (kv ∷ out) e k a = cc
entries (f ∷ fs) (kv ∷ out) e (hk, k) (ha, a) =
    ((ground arith, ha), entries fs out (ground arith) k a)

-- An answer that was accepted for a secret whose field names passed the check of the spec is read
-- back from the env-file written for it as complete, with the same values in the same order.
pub classify_stored-accept_submission :
    (spec : SecretSpec) (values out : List (Text × Text))
    → check_keys spec.name spec.fields ≡ ok tt
    → accept_submission spec values ≡ ok out
    → classify_stored spec (some (parse_env_file (encode_env_file out))) ≡ complete out
unfolding classify_stored accept_submission
classify_stored-accept_submission spec values out keys h =
    let (m, gathered, picked) = >>=-eq-ok (gather spec values []) (λ m. pick m spec.fields) h in
    let p = pick-Picked m spec.fields out picked in
    rw
      (parse_env_file-encode_env_file out
        (entries spec.fields out p.names (keys-valid spec.name spec.fields keys) p.accepted))
      (unfold collect in
        classify_fields-complete (collect out) m spec.fields out [] [] picked
          (collect_from-Agrees m out [] p.agree))
