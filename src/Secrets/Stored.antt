-- ===== src/Secrets/Stored.antt =====
-- packages/operator-secrets/src/lib.rs: what is on disk, what is asked, and what is accepted.
pub mod Laws
pub mod Saved
use foundrix.Base.{
  Bool, true, false, List, [], ◌∷◌, ◌++◌, map, Option, none, some, if◌then◌else◌, is_empty, Text,
  Dict, lookup, insert, Result, ok, ◌>>=◌, ◌>>◌, ensure, ok_or, map_err, is_ok, not,
}
use foundrix.Secrets.Spec.{FieldSpec, SecretSpec, field, is_some}
use foundrix.Secrets.Env.{FieldError, check_field_value}

-- Why a field of the stored file does not serve.
pub data Missing : Type 0 where
  not_there unusable : Text → Missing

pub data StoredState : Type 0 where
  absent : StoredState
  complete : List (Text × Text) → StoredState
  incomplete : List Missing → Dict Text → StoredState

-- The loop of `classify_stored` over the declared fields; `values`, `usable` and `missing` so far.
unfoldable pub classify_fields :
    Dict Text → List FieldSpec → List (Text × Text) → Dict Text → List Missing → StoredState
classify_fields parsed [] values usable missing =
    if is_empty missing then complete values else incomplete missing usable
classify_fields parsed (f ∷ fs) values usable missing = elim (lookup f.name parsed) [
  | none ↦ classify_fields parsed fs values usable (missing ++ not_there f.name ∷ [])
  | some v ↦ elim (is_ok (check_field_value v)) [
    | true ↦ classify_fields parsed fs (values ++ (f.name, v) ∷ []) (insert f.name v usable) missing
    | false ↦ classify_fields parsed fs values usable (missing ++ unusable f.name ∷ [])
  ]
]

unfoldable pub classify_stored : SecretSpec → Option (Dict Text) → StoredState
unfolding classify_fields
classify_stored spec none = absent
classify_stored spec (some parsed) = classify_fields parsed spec.fields [] [] []

pub record PromptField : Type 0 where
  pub name : Text
  pub description : Text
  pub sensitive : Bool
  pub value : Text

abbrev pub or_default : Option Text → Text
or_default none = []
or_default (some v) = v

unfoldable pub prompt_field : Dict Text → FieldSpec → PromptField
prompt_field known f = record {
  name = f.name;
  description = f.description;
  sensitive = f.sensitive;
  value = if f.sensitive then [] else or_default (lookup f.name known);
}

unfoldable pub prompt_fields : SecretSpec → Dict Text → List PromptField
unfolding prompt_field
prompt_fields spec known = map (prompt_field known) spec.fields

pub data SubmitError : Type 0 where
  unknown_field submitted_twice missing_field : Text → SubmitError
  bad_value : Text → FieldError → SubmitError

-- The first loop of `accept_submission`: the map of the submitted values.
unfoldable pub gather : SecretSpec → List (Text × Text) → Dict Text → Result (Dict Text) SubmitError
gather spec [] out = ok out
gather spec ((k, v) ∷ values) out = do
  ensure (is_some (field spec k)) (unknown_field k)
  ensure (not (is_some (lookup k out))) (submitted_twice k)
  gather spec values (insert k v out)

-- The second loop: the declared fields in their order.
unfoldable pub pick : Dict Text → List FieldSpec → Result (List (Text × Text)) SubmitError
pick submitted [] = ok []
pick submitted (f ∷ fs) = do
  v ← ok_or (lookup f.name submitted) (missing_field f.name)
  map_err (bad_value f.name) (check_field_value v)
  rest ← pick submitted fs
  ok ((f.name, v) ∷ rest)

unfoldable pub accept_submission :
    SecretSpec → List (Text × Text) → Result (List (Text × Text)) SubmitError
unfolding gather pick
accept_submission spec values = do submitted ← gather spec values []; pick submitted spec.fields
