-- ===== src/Nsw2/Effects/Slots.antt =====
-- Each of the sixteen ids of packages/nsw2-service/src/bridge.rs is available or has an effect.
use foundrix.Base.{
  ℕ, ◌%◌, ◌^◌, ◌<◌, ◌≡◌, refl, sym, subst, ◌∙◌, ==_iff, arith, Bool, true, false, not, ◌&&◌, ◌||◌,
  List, [], ◌∷◌, Option, none, some, ltb, ◌==◌, Map, get, put, get-put,
}
use foundrix.Nsw2.Effects.{
  Kind, rumble, other_kind, Event, upload, erase, playing, stopped, ignored, State, initial,
  max_ff_effects, insert_id, remove_id, remove_effect, eq_id, take_id, play_kind, process,
  process_ff,
}

abbrev pub has : ℕ → List ℕ → Bool
has id [] = false
has id (j ∷ ids) = id == j || has id ids

abbrev pub is_some : Option Kind → Bool
is_some none = false
is_some (some k) = true

abbrev pub in_use : ℕ → State → Bool
in_use id s = is_some (get eq_id id s.effects)

has-insert_id : (j id : ℕ) (ids : List ℕ) → has j (insert_id id ids) ≡ (j == id || has j ids)
unfolding insert_id
has-insert_id j id [] = refl
has-insert_id j id (k ∷ ids) = ground (arith, has-insert_id j id ids)

has-remove_id : (j id : ℕ) (ids : List ℕ) → has j (remove_id id ids) ≡ (not (j == id) && has j ids)
unfolding remove_id
has-remove_id j id [] = ground arith
has-remove_id j id (k ∷ ids) = ground (arith, has-remove_id j id ids)

get-remove_effect :
    (j id : ℕ) (m : Map ℕ Kind)
    → is_some (get eq_id j (remove_effect id m)) ≡ (not (j == id) && is_some (get eq_id j m))
unfolding get remove_effect
get-remove_effect j id [] = ground arith
get-remove_effect j id ((k, v) ∷ m) = ground (arith, get-remove_effect j id m)

get-put_id :
    (j id : ℕ) (k : Kind) (m : Map ℕ Kind)
    → is_some (get eq_id j (put eq_id id k m)) ≡ (j == id || is_some (get eq_id j m))
get-put_id j id k m = ground (arith, get-put eq_id ==_iff id j k m)

-- An id is available or has an effect, and not both, exactly if it is below sixteen.
abbrev pub OneOwner : State → Type 0
OneOwner s =
    (id : ℕ)
    → ((in_use id s || has id s.available_ids) ≡ ltb id max_ff_effects)
      × ((in_use id s && has id s.available_ids) ≡ false)

-- The kernel erases effects that were uploaded.
abbrev pub Fits : Event → State → Type 0
Fits (erase id) s = (id < 65536) × (in_use id s ≡ true)
Fits e s = Unit

abbrev pub AllFit : List Event → State → Type 0
AllFit [] s = Unit
AllFit (e ∷ es) s = Fits e s × AllFit es (process e s)

take_id-OneOwner :
    (kind : Kind) (s : State) (ids : List ℕ)
    → s.available_ids ≡ ids
    → OneOwner s
    → OneOwner (take_id kind s ids)
take_id-OneOwner kind s [] e h j = h j
take_id-OneOwner kind s (id ∷ ids) e h j =
    rw (get-put_id j id kind s.effects, has-remove_id j id (id ∷ ids))
      (moved (j == id) (in_use j s) (has j ids) (ltb j max_ff_effects) (
        subst
          (λ a.
            ((in_use j s || has j a) ≡ ltb j max_ff_effects) × ((in_use j s && has j a) ≡ false))
          e (h j)))
  where
    moved :
        (p u r l : Bool)
        → ((u || (p || r)) ≡ l) × ((u && (p || r)) ≡ false)
        → (((p || u) || (not p && (p || r))) ≡ l) × (((p || u) && (not p && (p || r))) ≡ false)
    moved p u r l k = ground (arith, k)

play_kind-OneOwner : (s : State) (o : Option Kind) → OneOwner s → OneOwner (play_kind s o)
play_kind-OneOwner s none h = h
play_kind-OneOwner s (some other_kind) h = h
play_kind-OneOwner s (some (rumble strong weak)) h = h

erase-OneOwner :
    (id : ℕ) (s : State) → Fits (erase id) s → OneOwner s → OneOwner (process (erase id) s)
unfolding process
erase-OneOwner id s (small, used) h j =
    rw (get-remove_effect j (id % 2 ^ 16) s.effects, has-insert_id j (id % 2 ^ 16) s.available_ids)
      (freed (j == id % 2 ^ 16) (in_use j s) (has j s.available_ids) (ltb j max_ff_effects) in_range
        (h j))
  where
    in_range : (j == id % 2 ^ 16) ≡ true → in_use j s ≡ true
    in_range q =
        subst (λ x. in_use x s ≡ true) (sym ((==_iff j (id % 2 ^ 16)).0 q ∙ omega (arith, small)))
          used

    freed :
        (p u a l : Bool)
        → (p ≡ true → u ≡ true)
        → ((u || a) ≡ l) × ((u && a) ≡ false)
        → (((not p && u) || (p || a)) ≡ l) × (((not p && u) && (p || a)) ≡ false)
    freed true u a l f k = ground (arith, f refl, k)
    freed false u a l f k = k

process-OneOwner : (e : Event) (s : State) → Fits e s → OneOwner s → OneOwner (process e s)
unfolding process
process-OneOwner (upload kind) s f h = take_id-OneOwner kind s s.available_ids refl h
process-OneOwner (playing id) s f h = play_kind-OneOwner s (get eq_id id s.effects) h
process-OneOwner stopped s f h = h
process-OneOwner ignored s f h = h
process-OneOwner (erase id) s f h = erase-OneOwner id s f h

-- At the start all sixteen ids are available.
initial-OneOwner : OneOwner initial
unfolding get
initial-OneOwner id = ground arith

from-OneOwner :
    (es : List Event) (s : State) → AllFit es s → OneOwner s → OneOwner (process_ff es s)
unfolding process_ff
from-OneOwner [] s f h = h
from-OneOwner (e ∷ es) s (fits, f) h =
    from-OneOwner es (process e s) f (process-OneOwner e s fits h)

-- Whatever events the kernel sends, as long as it erases only effects that were uploaded: each id below
-- sixteen is available or has an effect, not both, and no other id is or has one.
pub process_ff-OneOwner : (es : List Event) → AllFit es initial → OneOwner (process_ff es initial)
process_ff-OneOwner es f = from-OneOwner es initial f initial-OneOwner
