-- ===== src/Hypr/Registry/Laws.antt =====
-- The registry of monitors: a slot is permanent, and the file is read back as it was written.
use foundrix.Base.{
  ℕ, suc, ◌≡◌, ◌≢◌, refl, sym, ap, ◌∙◌, Bool, true, false, not, List, [], ◌∷◌, ◌++◌, map, Option,
  none, some, All, arith, is_empty, filter, position_from, if◌then◌else◌, Text, text_eq,
  text_eq_refl, lines, strip_cr, lines_from, append_assoc,
}
use foundrix.Base.TextLaws.{lines_from-append}
use foundrix.Hypr.Data.{Monitor}
use foundrix.Hypr.Registry.{
  MonitorRegistry, load, join_lines, saved, slot_for, register_each, register,
}

is_it : Text → Text → Bool
is_it d e = text_eq e d

module _ (d : Text) where
  -- A search that succeeds is not changed by what is appended.
  position-append :
      (i j : ℕ) (xs ys : List Text)
      → position_from (λ e. text_eq e d) i xs ≡ some j
      → position_from (λ e. text_eq e d) i (xs ++ ys) ≡ some j
  position-append i j [] ys h = ground arith
  position-append i j (x ∷ xs) ys h = ground (arith, position-append (suc i) j xs ys)

  position-snoc :
      (i : ℕ) (xs : List Text)
      → (j : ℕ) × (position_from (λ e. text_eq e d) i (xs ++ d ∷ []) ≡ some j)
  position-snoc i [] = (i, rw (text_eq_refl d) refl)
  position-snoc i (x ∷ xs) = found (text_eq x d) (position-snoc (suc i) xs)
    where
      found :
          (b : Bool)
          → ((j : ℕ) × (position_from (λ e. text_eq e d) (suc i) (xs ++ d ∷ []) ≡ some j))
          → (j : ℕ) × ((if b
                then some i
                else position_from (λ e. text_eq e d) (suc i) (xs ++ d ∷ []))
              ≡ some j)
      found true ih = (i, refl)
      found false ih = ih

-- Every slot of the first registry is one of the second.
abbrev pub Keeps : MonitorRegistry → MonitorRegistry → Type 0
Keeps r r' = (d : Text) (i : ℕ) → slot_for r d ≡ some i → slot_for r' d ≡ some i

abbrev pub HasSlot : MonitorRegistry → Monitor → Type 0
HasSlot r m = (i : ℕ) × (slot_for r m.description ≡ some i)

Keeps-append : (es fs : List Text) → Keeps (record { entries = es }) (record { entries = es ++ fs })
unfolding slot_for
Keeps-append es fs d i h = position-append d 0 i es fs h

-- What registering a list of monitors grants.
abbrev pub Registered : MonitorRegistry → List Monitor → MonitorRegistry × Bool → Type 0
Registered r ms (r', modified) =
    Keeps r r' × All (HasSlot r') ms × (modified ≡ false → r'.entries ≡ r.entries)

slot-snoc :
    (es : List Text) (m : Monitor) → HasSlot (record { entries = es ++ m.description ∷ [] }) m
unfolding slot_for
slot-snoc es m = position-snoc m.description 0 es

abbrev pub Loop : MonitorRegistry → List Monitor → Bool → MonitorRegistry × Bool → Type 0
Loop r ms b (r', modified) =
    Keeps r r' × All (HasSlot r') ms × (modified ≡ false → (b ≡ false) × (r' ≡ r))

module _ (m : Monitor) (ms : List Monitor) (r : MonitorRegistry) (b : Bool) where
  abbrev appended : MonitorRegistry
  appended = record { entries = r.entries ++ m.description ∷ [] }

  known : (p : MonitorRegistry × Bool) → Loop r ms b p → HasSlot r m → Loop r (m ∷ ms) b p
  known (r', c) (keeps, slots, same) (i, e) = (keeps, ((i, keeps m.description i e), slots), same)

  new : (p : MonitorRegistry × Bool) → Loop appended ms true p → Loop r (m ∷ ms) b p
  new (r', c) (keeps, slots, same) = (
    λ d i h. keeps d i (Keeps-append r.entries (m.description ∷ []) d i h),
    (
      (
        (slot-snoc r.entries m).0,
        keeps m.description (slot-snoc r.entries m).0 (slot-snoc r.entries m).1,
      ),
      slots,
    ),
    λ e. cc (same e).0,
  )

register_each-Loop :
    (ms : List Monitor) (r : MonitorRegistry) (b : Bool) → Loop r ms b (register_each ms r b)
unfolding register_each
register_each-Loop [] r b = (λ d i h. h, tt, λ e. (e, refl))
register_each-Loop (m ∷ ms) r b =
    by_slot (slot_for r m.description) refl (register_each-Loop ms r b)
      (register_each-Loop ms (appended m ms r b) true)
  where
    by_slot :
        (o : Option ℕ)
        → slot_for r m.description ≡ o
        → Loop r ms b (register_each ms r b)
        → Loop (appended m ms r b) ms true (register_each ms (appended m ms r b) true)
        → Loop r (m ∷ ms) b (elim o [
          | some i ↦ register_each ms r b
          | none ↦ register_each ms (appended m ms r b) true
        ])
    by_slot none e _ ih = new m ms r b _ ih
    by_slot (some i) e ih _ = known m ms r b _ ih (i, e)

abbrev descriptions : List Monitor → List Text
descriptions = map (λ (m : Monitor). m.description)

seeded :
    (r : MonitorRegistry) (es : List Text) (ms : List Monitor)
    → r.entries ≡ es ++ descriptions ms
    → All (HasSlot r) ms
unfolding slot_for
seeded r es [] e = tt
seeded r es (m ∷ ms) e = (
  (
    (slot-snoc es m).0,
    rw (e, sym (append_assoc es (m.description ∷ []) (descriptions ms)))
        (Keeps-append (es ++ m.description ∷ []) (descriptions ms) m.description (slot-snoc es m).0
          (slot-snoc es m).1),
  ),
  seeded r (es ++ m.description ∷ []) ms
      (e ∙ sym (append_assoc es (m.description ∷ []) (descriptions ms))),
)

none_kept : (es : List Text) → not (is_empty es) ≡ false → es ≡ []
none_kept [] h = refl
none_kept (e ∷ es) h = cc

entries-Registered :
    (es : List Text) (ms : List Monitor)
    → Registered (record { entries = es }) ms (register (record { entries = es }) ms)
unfolding register slot_for
entries-Registered [] ms = (
  λ d i h. cc,
  seeded (record { entries = descriptions ms }) [] ms refl,
  none_kept (descriptions ms),
)
entries-Registered (x ∷ es) ms =
    weaken _ (register_each-Loop ms (record { entries = x ∷ es }) false)
  where
    weaken :
        (p : MonitorRegistry × Bool)
        → Loop (record { entries = x ∷ es }) ms false p
        → Registered (record { entries = x ∷ es }) ms p
    weaken (r', c) (keeps, slots, same) =
        (keeps, slots, λ e. ap (λ (q : MonitorRegistry). q.entries) (same e).1)

-- Registering monitors keeps every slot that was given before, gives every one of the monitors a
-- slot, and leaves the entries alone when it answers that nothing was modified.
pub register-Registered :
    (r : MonitorRegistry) (ms : List Monitor) → Registered r ms (register r ms)
register-Registered r ms = entries-Registered r.entries ms

-- An entry that a line of the file can hold.
abbrev pub IsLine : Text → Type 0
IsLine e = (is_empty e ≡ false) × All (λ c. c ≢ 0x0a) e × (strip_cr e ≡ e)

lines-saved :
    (es : List Text)
    → All IsLine es
    → filter (λ l. not (is_empty l)) (lines (join_lines es ++ 0x0a ∷ [])) ≡ es
unfolding lines lines_from join_lines
lines-saved [] h = unfold strip_cr in refl
lines-saved (e ∷ []) ((ne, nl, cr), _) = rw (lines_from-append e [] [] nl) (rw (cr, ne) refl)
lines-saved (e ∷ f ∷ es) ((ne, nl, cr), hs) =
    rw
      (
        append_assoc e (0x0a ∷ join_lines (f ∷ es)) (0x0a ∷ []),
        lines_from-append e [] (join_lines (f ∷ es) ++ 0x0a ∷ []) nl,
      )
      (rw (cr, ne) (ap (◌∷◌ e) (lines-saved (f ∷ es) hs)))

abbrev pub with_entries : List Text → MonitorRegistry
with_entries es = record { entries = es }

-- The registry that was saved is loaded again, if every entry is a line of its own: not empty,
-- without a line feed, and without a carriage return at its end.
pub load-saved : (r : MonitorRegistry) → All IsLine r.entries → load (some (saved r)) ≡ r
unfolding load saved
load-saved r h = ap with_entries (lines-saved r.entries h)
