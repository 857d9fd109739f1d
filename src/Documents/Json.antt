-- ===== src/Documents/Json.antt =====
-- JSON values as Python holds them, and the operations on them that the source uses. Numbers are
-- naturals: no modelled code looks into one.
use advisoryhub.Prelude.{
  ℕ, Bool, true, false, not, Option, none, some, List, [], ◌∷◌, map, Text, blank, is_blank, text_eq,
  ◌==◌, if◌then◌else◌,
}
use advisoryhub.Documents.{Outcome, done, fail, Fault, ◌>>=◌}

mutual
  pub data Json : Type 0 where
    null : Json
    boolean : Bool → Json
    number : ℕ → Json
    string : Text → Json
    array : Items → Json
    object : Fields → Json

  pub data Items : Type 0 where
    no_items : Items
    item : Json → Items → Items

  pub data Fields : Type 0 where
    no_fields : Fields
    field : Text → Json → Fields → Fields

abbrev pub items : Items → List Json
items no_items = []
items (item j is) = j ∷ items is

abbrev pub items_of : List Json → Items
items_of [] = no_items
items_of (j ∷ js) = item j (items_of js)

abbrev pub keys : Fields → List Text
keys no_fields = []
keys (field k v fs) = k ∷ keys fs

-- The truth value.
abbrev pub is_truthy : Json → Bool
is_truthy null = false
is_truthy (boolean b) = b
is_truthy (number n) = not (n == 0)
is_truthy (string s) = not (is_blank s)
is_truthy (array no_items) = false
is_truthy (array (item j is)) = true
is_truthy (object no_fields) = false
is_truthy (object (field k v fs)) = true

abbrev pub lookup : Text → Fields → Option Json
lookup k no_fields = none
lookup k (field key v fs) = if text_eq key k then some v else lookup k fs

abbrev pub or_null : Option Json → Json
or_null none = null
or_null (some v) = v

-- `value.get(key)`
abbrev pub get : Text → Json → Outcome Json
get k (object fs) = done (or_null (lookup k fs))
get k _ = fail Fault.attribute_error

-- `value or default`
abbrev pub or_else : Json → Json → Json
or_else v default = if is_truthy v then v else default

abbrev pub or_dict : Json → Json
or_dict v = or_else v (object no_fields)

abbrev pub or_text : Json → Json
or_text v = or_else v (string blank)

abbrev pub or_list : Json → Json
or_list v = or_else v (array no_items)

-- What `for x in value` goes through.
abbrev pub elements : Json → Outcome (List Json)
elements (array is) = done (items is)
elements (object fs) = done (map string (keys fs))
elements (string s) = done (map (λ c. string (c ∷ [])) s)
elements _ = fail Fault.type_error

-- `value.strip()` and the other methods of `str`
abbrev pub text_of : Json → Outcome Text
text_of (string s) = done s
text_of _ = fail Fault.attribute_error

-- `(value.get(key) or "")`, as a `str`
abbrev pub text_at : Text → Json → Outcome Text
text_at k v = do found ← get k v; text_of (or_text found)

-- `(value.get(key) or []`), as what a loop goes through
abbrev pub list_at : Text → Json → Outcome (List Json)
list_at k v = do found ← get k v; elements (or_list found)

abbrev pub is_text : Json → Bool
is_text (string s) = true
is_text _ = false

abbrev pub is_list : Json → Bool
is_list (array is) = true
is_list _ = false

abbrev pub is_dict : Json → Bool
is_dict (object fs) = true
is_dict _ = false
