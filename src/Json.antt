-- ===== src/Json.antt =====
-- The JSON values that frames and request bodies carry, as `JSON.parse` returns them, with what
-- worker/src/fleet.js asks of such a value: a property, `||`, truth and conversion to a text.
-- Numbers are integers; the fractional ones that JSON allows are left out.
use popfleet.Base.{
  ℕ, zero, suc, String, Bool, true, false, not, Option, none, some, str_eq, if◌then◌else◌,
}

-- `negsuc n` is -(n + 1).
pub data ℤ : Type 0 where
  pos : ℕ → ℤ
  negsuc : ℕ → ℤ

mutual
  pub data Json : Type 0 where
    null : Json
    bool : Bool → Json
    num : ℤ → Json
    str : String → Json
    arr : Items → Json
    obj : Fields → Json

  pub data Items : Type 0 where
    nil : Items
    cons : Json → Items → Items

  pub data Fields : Type 0 where
    end : Fields
    field : String → Json → Fields → Fields

-- A property of an object; `none` is `undefined`.
unfoldable pub get_field : String → Fields → Option Json
get_field k end = none
get_field k (field j v fs) = if str_eq j k then some v else get_field k fs

-- `m.k`, where `m` is not null: what is no object has none of the properties asked for.
unfoldable pub prop : Json → String → Option Json
unfolding get_field
prop (obj fs) k = get_field k fs
prop null k = none
prop (bool b) k = none
prop (num n) k = none
prop (str s) k = none
prop (arr vs) k = none

-- On null any property access throws a TypeError.
abbrev pub is_null : Json → Bool
is_null null = true
is_null (bool b) = false
is_null (num n) = false
is_null (str s) = false
is_null (arr vs) = false
is_null (obj fs) = false

-- Truth of a value that may be undefined.
unfoldable pub truthy : Option Json → Bool
truthy none = false
truthy (some null) = false
truthy (some (bool b)) = b
truthy (some (num (pos zero))) = false
truthy (some (num (pos (suc n)))) = true
truthy (some (num (negsuc n))) = true
truthy (some (str s)) = not (str_eq s "")
truthy (some (arr vs)) = true
truthy (some (obj fs)) = true

-- `v || d`.
unfoldable pub or_else : Option Json → Json → Json
unfolding truthy
or_else none d = d
or_else (some v) d = if truthy (some v) then v else d

-- The tag `m.t`; a tag that is no text equals none of those in the code.
unfoldable pub tag_text : Option Json → String
tag_text (some (str s)) = s
tag_text none = ""
tag_text (some null) = ""
tag_text (some (bool b)) = ""
tag_text (some (num n)) = ""
tag_text (some (arr vs)) = ""
tag_text (some (obj fs)) = ""

unfoldable pub tag_of : Json → String
unfolding tag_text prop
tag_of m = tag_text (prop m "t")
