-- ===== src/Spec/Checks.antt =====
-- cpp/src/spec.h: `SpecError` and the checks of `detail`, and what the code uses of a JSON value. A
-- refusal is the place it is about and what the message says of it; `type_error` is what the JSON
-- library raises for a value of another type. The key of a member or a literal is given by its text.
pub mod Identifier
pub mod Integer
use pg_laswell.Base.{
  ℕ, zero, suc, Bool, true, false, not, ◌&&◌, ◌||◌, String, Option, none, some, List, [], ◌∷◌, ◌++◌,
  is_nil, leb, ltb, nat_eq, length, if◌then◌else◌,
}
use pg_laswell.Base.Bytes.{is_text, one_of}
use pg_laswell.Base.Result.{Result, ok, err, ◌>>=◌}
use pg_laswell.Canonical.Utf8.{Failure}
use pg_laswell.Canonical.Document.{
  Json, null, float, binary, boolean, integer, unsigned, string, array, object, Items, nil, cons,
  Members, end, field,
}

pub data IdentifierFault : Type 0 where
  is_empty too_long bad_start needs_quoting : IdentifierFault

pub data Place : Type 0 where
  the_document the_target : Place
  -- `intents[n]`
  intent : ℕ → Place

pub data SpecError : Type 0 where
  missing_string : Place → String → SpecError
  unknown_key : Place → List ℕ → SpecError
  -- the ordinal of the intent and the field
  bad_identifier : ℕ → String → IdentifierFault → SpecError
  refused : Place → String → SpecError
  type_error : SpecError
  -- a plain `std::runtime_error`
  runtime : Place → String → SpecError
  -- what `canonicalize` raises
  not_canonical : Failure → SpecError

-- A check passes, or refuses the document.
abbrev pub Check : Type 0
Check = Result SpecError Unit

-- The checks in order; the first that refuses is the one that is raised.
unfoldable pub all_of : List Check → Check
all_of [] = ok tt
all_of (c ∷ cs) = c >>= λ _. all_of cs

abbrev pub refuse_if : Bool → SpecError → Check
refuse_if true e = err e
refuse_if false e = ok tt

-- `obj[key]`
unfoldable pub at_key : Members → String → Option Json
unfolding is_text
at_key end k = none
at_key (field name v ms) k = if is_text name k then some v else at_key ms k

abbrev pub is_present : Option Json → Bool
is_present none = false
is_present (some v) = true

unfoldable pub contains_key : Members → String → Bool
unfolding at_key
contains_key ms k = is_present (at_key ms k)

abbrev pub is_string : Json → Bool
is_string (string s) = true
is_string v = false

abbrev pub is_boolean : Json → Bool
is_boolean (boolean b) = true
is_boolean v = false

abbrev pub is_object : Json → Bool
is_object (object ms) = true
is_object v = false

abbrev pub is_array : Json → Bool
is_array (array xs) = true
is_array v = false

abbrev pub is_number_integer : Json → Bool
is_number_integer (integer n) = true
is_number_integer (unsigned n) = true
is_number_integer v = false

abbrev pub is_number : Json → Bool
is_number float = true
is_number v = is_number_integer v

-- `get<std::string>()`
abbrev pub get_string : Json → Result SpecError (List ℕ)
get_string (string s) = ok s
get_string v = err type_error

-- `value(key, default)` where the default is a text, or a Boolean.
abbrev pub string_or : List ℕ → Option Json → Result SpecError (List ℕ)
string_or default none = ok default
string_or default (some v) = get_string v

unfoldable pub value_string : Members → String → List ℕ → Result SpecError (List ℕ)
value_string ms k default = string_or default (at_key ms k)

abbrev pub bool_or : Bool → Option Json → Result SpecError Bool
bool_or default none = ok default
bool_or default (some (boolean b)) = ok b
bool_or default (some v) = err type_error

unfoldable pub value_bool : Members → String → Bool → Result SpecError Bool
value_bool ms k default = bool_or default (at_key ms k)

abbrev pub items : Items → List Json
items nil = []
items (cons x xs) = x ∷ items xs

abbrev pub values : Members → List Json
values end = []
values (field name v ms) = v ∷ values ms

-- What a loop over a JSON value visits: null has nothing, a scalar itself.
unfoldable pub elements : Json → List Json
elements null = []
elements (array xs) = items xs
elements (object ms) = values ms
elements v = v ∷ []

unfoldable pub each : (Json → Check) → List Json → Check
each check [] = ok tt
each check (v ∷ vs) = check v >>= λ _. each check vs

-- `contains(key)`, and the value passes a test.
abbrev pub holds : (Json → Bool) → Option Json → Bool
holds test none = false
holds test (some v) = test v

-- `contains(key) && !test`
abbrev pub fails : (Json → Bool) → Option Json → Bool
fails test none = false
fails test (some v) = not (test v)

abbrev pub is_full_array : Json → Bool
is_full_array (array (cons x xs)) = true
is_full_array v = false

is_lower : ℕ → Bool
is_lower c = leb b'a' c && leb c b'z'

is_digit : ℕ → Bool
is_digit c = leb b'0' c && leb c b'9'

is_start : ℕ → Bool
unfolding is_lower
is_start c = is_lower c || nat_eq c b'_'

-- The loop over the characters.
unfoldable pub all_plain : List ℕ → Bool
unfolding is_lower is_digit
all_plain [] = true
all_plain (c ∷ cs) = (is_lower c || (is_digit c || nat_eq c b'_')) && all_plain cs

unfoldable pub require_identifier : List ℕ → String → ℕ → Check
unfolding is_start all_plain
require_identifier [] name ordinal = err (bad_identifier ordinal name is_empty)
require_identifier (c ∷ cs) name ordinal =
    if ltb 63 (length (c ∷ cs))
    then err (bad_identifier ordinal name too_long)
    else if not (is_start c)
    then err (bad_identifier ordinal name bad_start)
    else refuse_if (not (all_plain (c ∷ cs))) (bad_identifier ordinal name needs_quoting)

-- The text of a member that is not empty.
abbrev pub filled : Option Json → Option (List ℕ)
filled (some (string (c ∷ cs))) = some (c ∷ cs)
filled v = none

abbrev pub or_missing : Option (List ℕ) → Place → String → Result SpecError (List ℕ)
or_missing none at k = err (missing_string at k)
or_missing (some s) at k = ok s

unfoldable pub require_string : Members → String → Place → Result SpecError (List ℕ)
require_string ms k at = or_missing (filled (at_key ms k)) at k

-- `require_identifier(require_string(in.body, key, at), key, in.ordinal)`
unfoldable pub named : ℕ → Members → String → Check
unfolding require_string require_identifier
named n ms k = require_string ms k (intent n) >>= λ s. require_identifier s k n

-- `require_string` where only the check is wanted.
abbrev pub given : ℕ → Members → String → Check
given n ms k = require_string ms k (intent n) >>= λ s. ok tt

-- The first key in the object's order that is not allowed.
unfoldable pub reject_unknown_keys : Members → List String → Place → Check
unfolding one_of
reject_unknown_keys end allowed at = ok tt
reject_unknown_keys (field name v ms) allowed at =
    if one_of name allowed then reject_unknown_keys ms allowed at else err (unknown_key at name)

-- `period_flag`
abbrev pub two_or_more : Option Json → Bool
two_or_more (some (array (cons x (cons y xs)))) = true
two_or_more v = false

abbrev period_of : Option Json → Option Json → Place → String → Check
period_of none columns at flag = ok tt
period_of (some (boolean false)) columns at flag = ok tt
period_of (some (boolean true)) columns at flag =
    refuse_if (not (two_or_more columns)) (refused at "needs at least two columns")
period_of (some v) columns at flag = err (refused at "must be a boolean")

unfoldable pub period_flag : Members → String → String → Place → Check
period_flag ms flag list at = period_of (at_key ms flag) (at_key ms list) at flag

-- `optional_creation_comment`
abbrev pub is_comment : Json → Bool
is_comment (string (c ∷ cs)) = true
is_comment v = false

unfoldable pub optional_creation_comment : ℕ → Members → Check
optional_creation_comment n ms =
    refuse_if (fails is_comment (at_key ms "comment"))
      (refused (intent n) "comment must be a non-empty string")

-- `reject_unknown_keys(in.body, …, at)`, and a refusal of the intent.
abbrev pub known : ℕ → Members → List String → Check
known n ms allowed = reject_unknown_keys ms allowed (intent n)

abbrev pub refuse : ℕ → Bool → String → Check
refuse n bad what = refuse_if bad (refused (intent n) what)

-- Each of the names is an identifier.
unfoldable pub all_named : ℕ → Members → List String → Check
unfolding named
all_named n ms [] = ok tt
all_named n ms (k ∷ ks) = named n ms k >>= λ _. all_named n ms ks

-- `require_identifier(v.get<std::string>(), …)` of an element.
unfoldable pub element_named : ℕ → String → Json → Check
unfolding require_identifier
element_named n k v = get_string v >>= λ s. require_identifier s k n

-- The same behind `is_string()`.
unfoldable pub string_named : ℕ → String → String → Json → Check
unfolding require_identifier
string_named n k what (string s) = require_identifier s k n
string_named n k what v = err (refused (intent n) what)

-- Is none of the keys there?
unfoldable pub has_none : Members → List String → Bool
unfolding contains_key
has_none ms [] = true
has_none ms (k ∷ ks) = not (contains_key ms k) && has_none ms ks

-- The elements of a member that is there.
abbrev pub elements_of : Option Json → List Json
elements_of none = []
elements_of (some v) = elements v
