-- ===== src/Runtime.antt =====
-- aliyun-openapi-runtime: calls that are described by metadata. The values of arguments and the
-- metadata of parameters (meta/parameter.go, meta/types.go).
pub mod Argparser
pub mod Constraints
pub mod Required
pub mod Serializer
pub mod Pager
use aliyun_cli.Base.{ℕ, suc, Text, text_eq, Bool, if◌then◌else◌, List}

-- A Go value of type `any` as the argument parser makes it: what JSON has, with numbers as they are
-- written, and a `float64` as `FormatFloat` with the format `g` prints it. A map is the list of its
-- entries in the order of the keys, in which the code visits them; no key occurs twice.
mutual
  pub data Value : Type 0 where
    nil : Value
    text number float : Text → Value
    boolean : Bool → Value
    array : Values → Value
    object : Members → Value

  pub data Values : Type 0 where
    no_values : Values
    value_cons : Value → Values → Values

  pub data Members : Type 0 where
    no_members : Members
    member_cons : Text → Value → Members → Members

-- `DataType` of what is neither an object, an array nor a map; `other` is any other name.
pub data Scalar : Type 0 where
  string integer long float_type boolean_type any other : Scalar

pub data Position : Type 0 where
  query body header path form_data host : Position

-- The fields of `Parameter` that the runtime reads, save for `Type`, `Fields`, `ItemType` and
-- `ValueType`.
pub record Info : Type 0 where
  pub name : Text
  pub raw_name : Text
  pub position : Position
  pub required : Bool
  pub doc_required : Bool
  pub enum : List Text
  pub minimum : Text
  pub maximum : Text
  pub min_length : Text
  pub max_length : Text
  pub pattern : Text
  pub options : List Text

-- `Parameter`: the shape is its type with the descriptors that this type uses; an item may be missing.
mutual
  pub data Parameter : Type 0 where
    parameter : Info → Shape → Parameter

  pub data Shape : Type 0 where
    scalar : Scalar → Shape
    object_of : Fields → Shape
    array_of map_of : Item → Shape

  pub data Item : Type 0 where
    no_item : Item
    item : Parameter → Item

  pub data Fields : Type 0 where
    no_fields : Fields
    field_cons : Parameter → Fields → Fields

abbrev pub info_of : Parameter → Info
info_of (parameter info shape) = info

abbrev pub shape_of : Parameter → Shape
shape_of (parameter info shape) = shape

-- `m[key]`, with `none` in the place of a missing key.
pub data Slot : Type 0 where
  missing : Slot
  present : Value → Slot

unfoldable pub get : Members → Text → Slot
get no_members key = missing
get (member_cons k v m) key = let later = get m key in if text_eq k key then present v else later

-- `m[key] = v`; a new key is put last.
unfoldable pub put : Members → Text → Value → Members
put no_members key v = member_cons key v no_members
put (member_cons k w m) key v =
    let later = put m key v in if text_eq k key then member_cons k v m else member_cons k w later

-- `append(a, b...)`
unfoldable pub append : Values → Values → Values
append no_values more = more
append (value_cons v vs) more = value_cons v (append vs more)

unfoldable pub count : Values → ℕ
count no_values = 0
count (value_cons v vs) = suc (count vs)
