-- ===== src/Json.antt =====
-- The values of a request body, and how JavaScript turns one into a text or a truth value.
use floppyguard.Base.{
  Bool, true, false, not, ◌&&◌, Option, none, some, List, [], ◌∷◌, ◌++◌, if◌then◌else◌,
}
use floppyguard.Base.Text.{Text, codes, text_eq}

-- A number stands as the text that `String` gives of it, so `num` of "0" is 0.
mutual
  pub data Json : Type 0 where
    undefined : Json
    null : Json
    bool : Bool → Json
    num : Text → Json
    str : Text → Json
    arr : Items → Json
    obj : Fields → Json

  pub data Items : Type 0 where
    nil : Items
    cons : Json → Items → Items

  pub data Fields : Type 0 where
    end : Fields
    field : Text → Json → Fields → Fields

abbrev pub items : Items → List Json
items nil = []
items (cons v vs) = v ∷ items vs

-- `String(v ?? "")`: the elements of an array are joined by commas, and null and undefined
-- are empty there too.
unfoldable mutual
  pub string_of : Json → Text
  string_of undefined = []
  string_of null = []
  string_of (bool true) = codes "true"
  string_of (bool false) = codes "false"
  string_of (num s) = s
  string_of (str s) = s
  string_of (arr vs) = string_of_items vs
  string_of (obj fs) = codes "[object Object]"

  pub string_of_items : Items → Text
  string_of_items nil = []
  string_of_items (cons v vs) = string_of v ++ string_of_tail vs

  pub string_of_tail : Items → Text
  string_of_tail nil = []
  string_of_tail (cons v vs) = b',' ∷ (string_of v ++ string_of_tail vs)

-- `Boolean(v)`.
unfoldable pub truthy : Json → Bool
truthy undefined = false
truthy null = false
truthy (bool b) = b
truthy (num s) = not (text_eq s (codes "0")) && not (text_eq s (codes "NaN"))
truthy (str []) = false
truthy (str (_ ∷ _)) = true
truthy (arr _) = true
truthy (obj _) = true

-- `v === undefined`, and `v === null || v === undefined`.
unfoldable pub is_undefined : Json → Bool
is_undefined undefined = true
is_undefined _ = false

unfoldable pub is_nullish : Json → Bool
is_nullish undefined = true
is_nullish null = true
is_nullish _ = false

-- `v?.name`: no field of that name, and every value but an object, reads as undefined.
-- The last field of a name counts.
unfoldable pub get_field : Text → Fields → Option Json
get_field name end = none
get_field name (field k v fs) =
    let later = get_field name fs in
    elim later [ none ↦ if text_eq k name then some v else none | some w ↦ some w ]

unfoldable pub get : Text → Json → Json
unfolding get_field
get name (obj fs) = elim (get_field name fs) [ none ↦ undefined | some v ↦ v ]
get name _ = undefined
