-- ===== src/Json.antt =====
-- JSON values as Python's json reads them, and Python's `int` and `float` on them.
use secure_orchestration_mes.Prelude.{
  ℕ, zero, suc, ◌*◌, ◌/◌, ◌^◌, String, str_eq, if◌then◌else◌, Bool, true, false, Option, none, some,
  List, [], ◌∷◌,
}
use secure_orchestration_mes.Prelude.Int.{ℤ, pos, negsuc, sub_ℕ}

-- A double: a number of units of 2^-1074, or an infinity or NaN.
pub data Float : Type 0 where
  finite : ℤ → Float
  not_finite : Float

-- The double 1.0.
unfoldable pub one : ℕ
one = 2 ^ 1074

-- A JSON value, the values of an array and the members of an object, which stand once each.
mutual
  pub data Json : Type 0 where
    null : Json
    boolean : Bool → Json
    integer : ℤ → Json
    floating : Float → Json
    text : String → Json
    array : Items → Json
    object : Members → Json

  pub data Items : Type 0 where
    nil : Items
    item : Json → Items → Items

  pub data Members : Type 0 where
    empty : Members
    member : String → Json → Members → Members

-- `d.get(k)` and `d[k] = v`.
unfoldable pub get_member : Members → String → Option Json
get_member empty k = none
get_member (member j v d) k = if str_eq j k then some v else get_member d k

unfoldable pub put_member : Members → String → Json → Members
put_member empty k v = member k v empty
put_member (member j w d) k v = if str_eq j k then member j v d else member j w (put_member d k v)

-- `d.get(k, default)`
abbrev pub or_else : Json → Option Json → Json
or_else default none = default
or_else default (some v) = v

abbrev pub get_or : Members → String → Json → Json
get_or d k default = or_else default (get_member d k)

abbrev pub items : List Json → Items
items [] = nil
items (v ∷ vs) = item v (items vs)

-- Conversions of Python that read or round: `int(s)` and `float(s)` of a text, and `float(i)` of an
-- integer, which overflows for a large one.
pub record Conversions : Type 0 where
  pub int_of_text : String → Option ℤ
  pub float_of_text : String → Option Float
  pub float_of_int : ℤ → Option Float

abbrev truncate : ℤ → ℤ
truncate (pos n) = pos (n / one)
truncate (negsuc n) = sub_ℕ 0 (suc n / one)

abbrev pub bit : Bool → ℕ
bit true = 1
bit false = 0

-- `int(v)`, or an exception.
unfoldable pub int_of : Conversions → Json → Option ℤ
unfolding one
int_of c null = none
int_of c (boolean b) = some (pos (bit b))
int_of c (integer z) = some z
int_of c (floating (finite z)) = some (truncate z)
int_of c (floating not_finite) = none
int_of c (text s) = c.int_of_text s
int_of c (array vs) = none
int_of c (object d) = none

-- `float(v)`, or an exception.
unfoldable pub float_of : Conversions → Json → Option Float
unfolding one
float_of c null = none
float_of c (boolean b) = some (finite (pos (bit b * one)))
float_of c (integer z) = c.float_of_int z
float_of c (floating x) = some x
float_of c (text s) = c.float_of_text s
float_of c (array vs) = none
float_of c (object d) = none

abbrev pub elements : Items → List Json
elements nil = []
elements (item v vs) = v ∷ elements vs

-- `bool(v)`; the negative zero is the zero of `Float`.
unfoldable pub truthy : Json → Bool
truthy null = false
truthy (boolean b) = b
truthy (integer (pos zero)) = false
truthy (integer z) = true
truthy (floating (finite (pos zero))) = false
truthy (floating x) = true
truthy (text String.[]) = false
truthy (text s) = true
truthy (array nil) = false
truthy (array vs) = true
truthy (object empty) = false
truthy (object d) = true

-- What a loop over `v` runs through, or a TypeError.
abbrev letters : String → Items
letters String.[] = nil
letters (String.◌∷◌ c s) = item (text (String.◌∷◌ c String.[])) (letters s)

abbrev keys : Members → Items
keys empty = nil
keys (member k v d) = item (text k) (keys d)

unfoldable pub list_of : Json → Option Items
list_of (text s) = some (letters s)
list_of (array vs) = some vs
list_of (object d) = some (keys d)
list_of _ = none
