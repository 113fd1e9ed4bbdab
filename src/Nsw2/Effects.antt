-- ===== src/Nsw2/Effects.antt =====
-- packages/nsw2-service/src/bridge.rs: the force-feedback effects that are uploaded to the virtual
-- gamepad, and the rumble commands that they give.
pub mod Slots
use foundrix.Base.{
  ℕ, zero, suc, ◌+◌, ◌%◌, ◌^◌, Bool, List, [], ◌∷◌, ◌++◌, Option, none, some, ltb, ◌==◌,
  if◌then◌else◌, Map, get, put,
}

-- `MAX_FF_EFFECTS`
abbrev pub max_ff_effects : ℕ
max_ff_effects = 16

pub data RumbleCmd : Type 0 where
  play : ℕ → ℕ → RumbleCmd
  stop : RumbleCmd

-- The kinds of an effect.
pub data Kind : Type 0 where
  rumble : ℕ → ℕ → Kind
  other_kind : Kind

-- The events that matter: a kind to upload, an effect to erase, and an effect's status.
pub data Event : Type 0 where
  upload : Kind → Event
  erase playing : ℕ → Event
  stopped ignored : Event

-- The variables of `main_loop` that `process_ff` changes, the commands sent, the last first, and the
-- answers to the uploads.
pub record State : Type 0 where
  pub effects : Map ℕ Kind
  pub available_ids : List ℕ
  pub sent : List RumbleCmd
  pub answers : List (Option ℕ)

-- The numbers below a bound, from the least on.
abbrev pub numbers_from : ℕ → ℕ → List ℕ
numbers_from n zero = []
numbers_from n (suc k) = n ∷ numbers_from (n + 1) k

abbrev pub initial : State
initial = record {
  effects = [];
  available_ids = numbers_from 0 max_ff_effects;
  sent = [];
  answers = [];
}

-- A BTreeSet is a list in order, without an entry twice.
unfoldable pub insert_id : ℕ → List ℕ → List ℕ
insert_id id [] = id ∷ []
insert_id id (j ∷ ids) =
    let rest = insert_id id ids in
    if id == j then j ∷ ids else if ltb id j then id ∷ j ∷ ids else j ∷ rest

unfoldable pub remove_id : ℕ → List ℕ → List ℕ
remove_id id [] = []
remove_id id (j ∷ ids) = let rest = remove_id id ids in if id == j then rest else j ∷ rest

unfoldable pub remove_effect : ℕ → Map ℕ Kind → Map ℕ Kind
remove_effect id [] = []
remove_effect id ((j, k) ∷ m) =
    let rest = remove_effect id m in if id == j then rest else (j, k) ∷ rest

abbrev pub eq_id : ℕ → ℕ → Bool
eq_id a b = a == b

-- The least of the available ids is taken.
abbrev pub take_id : Kind → State → List ℕ → State
take_id kind s [] = record s { answers = none ∷ s.answers }
take_id kind s (id ∷ ids) = record s {
  effects = put eq_id id kind s.effects;
  available_ids = remove_id id (id ∷ ids);
  answers = some id ∷ s.answers;
}

abbrev pub play_kind : State → Option Kind → State
play_kind s none = s
play_kind s (some other_kind) = s
play_kind s (some (rumble strong weak)) = record s { sent = play strong weak ∷ s.sent }

-- The match on an event in `process_ff`.
unfoldable pub process : Event → State → State
unfolding put get insert_id remove_id remove_effect
process (upload kind) s = take_id kind s s.available_ids
process (erase id) s = record s {
  effects = remove_effect (id % 2 ^ 16) s.effects;
  available_ids = insert_id (id % 2 ^ 16) s.available_ids;
}
process (playing id) s = play_kind s (get eq_id id s.effects)
process stopped s = record s { sent = stop ∷ s.sent }
process ignored s = s

-- The loop of `process_ff` over the events.
unfoldable pub process_ff : List Event → State → State
unfolding process
process_ff [] s = s
process_ff (e ∷ es) s = process_ff es (process e s)
