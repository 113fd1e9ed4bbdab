-- ===== src/Hypr/Window.antt =====
-- packages/hypr-workspaced/src/window.rs: the patterns that pick windows to pin.
pub mod RoundTrip
use foundrix.Base.{
  ◌≡◌, Bool, true, false, ◌&&◌, ◌||◌, [], ◌∷◌, ◌++◌, Option, none, some, if◌then◌else◌, Text,
  text_eq, codes, split_once, ℤ, eq_ℤ, int_text, contains, parse_i32,
}
use foundrix.Hypr.Data.{Client}

pub data WindowPattern : Type 0 where
  class title : Text → WindowPattern
  pid : ℤ → WindowPattern
  address : Text → WindowPattern
  floating fullscreen : Bool → WindowPattern

unfoldable pub parse_bool : Text → Option Bool
unfolding text_eq
parse_bool s =
    if text_eq s (codes "true") || text_eq s (codes "1") || text_eq s (codes "yes")
    then some true
    else if text_eq s (codes "false") || text_eq s (codes "0") || text_eq s (codes "no")
    then some false
    else none

abbrev pub pid_pattern : Option ℤ → Option WindowPattern
pid_pattern none = none
pid_pattern (some p) = some (pid p)

abbrev pub bool_pattern : (Bool → WindowPattern) → Option Bool → Option WindowPattern
bool_pattern f none = none
bool_pattern f (some b) = some (f b)

-- The match on the prefix.
unfoldable pub parse_value : Text → Text → Option WindowPattern
unfolding text_eq parse_bool parse_i32
parse_value prefix value =
    if text_eq prefix (codes "class")
    then some (class value)
    else if text_eq prefix (codes "title")
    then some (title value)
    else if text_eq prefix (codes "pid")
    then pid_pattern (parse_i32 value)
    else if text_eq prefix (codes "address")
    then some (address value)
    else if text_eq prefix (codes "floating")
    then bool_pattern floating (parse_bool value)
    else if text_eq prefix (codes "fullscreen")
    then bool_pattern fullscreen (parse_bool value)
    else none

abbrev pub parse_parts : Option (Text × Text) → Option WindowPattern
parse_parts none = none
parse_parts (some (prefix, value)) = parse_value prefix value

-- `WindowPattern::parse`
unfoldable pub parse : Text → Option WindowPattern
unfolding split_once parse_value
parse spec = parse_parts (split_once b':' spec)

abbrev pub eq_Bool : Bool → Bool → Bool
eq_Bool true b = b
eq_Bool false true = false
eq_Bool false false = true

unfoldable pub matches : WindowPattern → Client → Bool
unfolding contains eq_ℤ
matches (class p) c = contains c.class p || contains c.initial_class p
matches (title p) c = contains c.title p || contains c.initial_title p
matches (pid p) c = eq_ℤ c.pid p
matches (address a) c = contains c.address a
matches (floating b) c = eq_Bool c.floating b
matches (fullscreen b) c = eq_Bool c.fullscreen b

abbrev pub bool_text : Bool → Text
bool_text true = codes "true"
bool_text false = codes "false"

-- `Display`
unfoldable pub display : WindowPattern → Text
unfolding int_text
display (class v) = codes "class:" ++ v
display (title v) = codes "title:" ++ v
display (pid p) = codes "pid:" ++ int_text p
display (address v) = codes "address:" ++ v
display (floating b) = codes "floating:" ++ bool_text b
display (fullscreen b) = codes "fullscreen:" ++ bool_text b

-- The derived `==` of patterns.
unfoldable pub pattern_eq : WindowPattern → WindowPattern → Bool
unfolding text_eq eq_ℤ
pattern_eq (class a) (class b) = text_eq a b
pattern_eq (title a) (title b) = text_eq a b
pattern_eq (pid a) (pid b) = eq_ℤ a b
pattern_eq (address a) (address b) = text_eq a b
pattern_eq (floating a) (floating b) = eq_Bool a b
pattern_eq (fullscreen a) (fullscreen b) = eq_Bool a b
pattern_eq _ _ = false
