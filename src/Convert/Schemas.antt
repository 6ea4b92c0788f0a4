-- ===== src/Convert/Schemas.antt =====
-- types/aiconv/aiconv.go: schemas and their types. The conversion of examples is a parameter, which
-- calls structpb, and a number of Go's type float64 is a value of the parameter `F`. The properties are
-- listed in the order in which `range` visits them. In each struct, `others` stands for all fields that
-- the conversions leave out, a value of the parameter `O`, or `none` where each has its zero value.
pub mod Exact
use adk_go.Base.{
  ℕ, zero, suc, ℤ, pos, negsuc, Text, Bool, true, false, Option, none, some, List, [], ◌∷◌, Outcome,
  ok, fail, panic, ◌>>=◌, if◌then◌else◌,
}

-- `genai.Type`, with the other texts that it can be.
pub data SchemaType : Type 0 where
  type_unspecified type_string type_number type_integer type_boolean type_array type_object :
      SchemaType
  other_type : Text → SchemaType

-- `aiplatformpb.Type`, with the other numbers that it can be.
pub data PbType : Type 0 where
  pb_unspecified pb_string pb_number pb_integer pb_boolean pb_array pb_object : PbType
  other_pb_type : ℤ → PbType

-- `ToAIPlatformType`
unfoldable pub to_type : SchemaType → Outcome PbType
to_type type_unspecified = ok pb_unspecified
to_type type_string = ok pb_string
to_type type_number = ok pb_number
to_type type_integer = ok pb_integer
to_type type_boolean = ok pb_boolean
to_type type_array = ok pb_array
to_type type_object = ok pb_object
to_type (other_type t) = panic

-- `FromAIPlatformType`
unfoldable pub from_type : PbType → Outcome SchemaType
from_type pb_unspecified = ok type_unspecified
from_type pb_string = ok type_string
from_type pb_number = ok type_number
from_type pb_integer = ok type_integer
from_type pb_boolean = ok type_boolean
from_type pb_array = ok type_array
from_type pb_object = ok type_object
from_type (other_pb_type n) = panic

-- `genai.Schema` without the schemas below it; `others` are its title, its default and the like.
pub record SchemaFields (V F O : Type 0) : Type 0 where
  pub schema_type : SchemaType
  pub format : Text
  pub description : Text
  pub pattern : Text
  pub enum : List Text
  pub required : List Text
  pub example : Option V
  pub nullable : Option Bool
  pub min_length : Option ℤ
  pub max_length : Option ℤ
  pub min_items : Option ℤ
  pub max_items : Option ℤ
  pub min_properties : Option ℤ
  pub max_properties : Option ℤ
  pub minimum : Option F
  pub maximum : Option F
  pub others : Option O

-- The same of `aiplatformpb.Schema`.
pub record PbFields (P F O : Type 0) : Type 0 where
  pub schema_type : PbType
  pub format : Text
  pub description : Text
  pub pattern : Text
  pub enum : List Text
  pub required : List Text
  pub example : Option P
  pub nullable : Bool
  pub min_length : ℤ
  pub max_length : ℤ
  pub min_items : ℤ
  pub max_items : ℤ
  pub min_properties : ℤ
  pub max_properties : ℤ
  pub minimum : F
  pub maximum : F
  pub others : Option O

-- A schema: its own fields, the schema of its items and those of its properties. A nil pointer is
-- `no_schema`.
mutual
  pub data Schema (A : Type 0) : Type 0 where
    schema : A → MaybeSchema A → Properties A → Schema A

  pub data MaybeSchema (A : Type 0) : Type 0 where
    no_schema : MaybeSchema A
    a_schema : Schema A → MaybeSchema A

  pub data Properties (A : Type 0) : Type 0 where
    no_properties : Properties A
    property : Text → MaybeSchema A → Properties A → Properties A

-- The recursion of both conversions.
unfoldable mutual
  pub convert_schema : {A B : Type 0} → (A → Outcome B) → Schema A → Outcome (Schema B)
  convert_schema f (schema a items props) = do
    b ← f a
    items' ← convert_maybe f items
    props' ← convert_properties f props
    ok (schema b items' props')

  pub convert_maybe : {A B : Type 0} → (A → Outcome B) → MaybeSchema A → Outcome (MaybeSchema B)
  convert_maybe f no_schema = ok no_schema
  convert_maybe f (a_schema s) = do t ← convert_schema f s; ok (a_schema t)

  pub convert_properties : {A B : Type 0} → (A → Outcome B) → Properties A → Outcome (Properties B)
  convert_properties f no_properties = ok no_properties
  convert_properties f (property k s props) = do
    t ← convert_maybe f s
    props' ← convert_properties f props
    ok (property k t props')

-- What the code gets from structpb, where a null value is nil, and from floating-point numbers.
pub record Values (V P F : Type 0) : Type 0 where
  pub new_value : V → Outcome P
  pub as_interface : P → Option V
  pub zero_float : F
  pub is_zero_float : F → Bool

abbrev pub deref : {A : Type 0} → A → Option A → A
deref d none = d
deref d (some a) = a

abbrev pub is_zero : ℤ → Bool
is_zero (pos zero) = true
is_zero (pos (suc n)) = false
is_zero (negsuc n) = false

-- A pointer to a number that is not 0.
abbrev pub unless_zero : ℤ → Option ℤ
unless_zero n = if is_zero n then none else some n

module _ {V P F : Type 0} (v : Values V P F) where
  -- `ToAIPlatformValue`
  unfoldable pub to_value : Option V → Outcome (Option P)
  to_value none = ok none
  to_value (some x) = elim (v.new_value x) [ ok p ↦ ok (some p) | fail e ↦ panic | panic ↦ panic ]

  -- `FromAIPlatformValue`
  unfoldable pub from_value : Option P → Option V
  from_value none = none
  from_value (some p) = v.as_interface p

  abbrev pub unless_zero_float : F → Option F
  unless_zero_float x = if v.is_zero_float x then none else some x

module _ {V P F O : Type 0} (v : Values V P F) where
  -- The fields in `ToAIPlatformSchema`.
  unfoldable pub to_fields : SchemaFields V F O → Outcome (PbFields P F O)
  unfolding to_type to_value
  to_fields s = do
    t ← to_type s.schema_type
    e ← to_value v s.example
    ok (record {
      schema_type = t;
      format = s.format;
      description = s.description;
      pattern = s.pattern;
      enum = s.enum;
      required = s.required;
      example = e;
      nullable = deref false s.nullable;
      min_length = deref (pos 0) s.min_length;
      max_length = deref (pos 0) s.max_length;
      min_items = deref (pos 0) s.min_items;
      max_items = deref (pos 0) s.max_items;
      min_properties = deref (pos 0) s.min_properties;
      max_properties = deref (pos 0) s.max_properties;
      minimum = deref v.zero_float s.minimum;
      maximum = deref v.zero_float s.maximum;
      others = none;
    })

  -- The fields in `FromAIPlatformSchema`, with their type.
  unfoldable pub from_known : PbFields P F O → SchemaType → SchemaFields V F O
  unfolding from_value
  from_known s t = record {
    schema_type = t;
    format = s.format;
    description = s.description;
    pattern = s.pattern;
    enum = s.enum;
    required = s.required;
    example = from_value v s.example;
    nullable = some s.nullable;
    min_length = unless_zero s.min_length;
    max_length = unless_zero s.max_length;
    min_items = unless_zero s.min_items;
    max_items = unless_zero s.max_items;
    min_properties = unless_zero s.min_properties;
    max_properties = unless_zero s.max_properties;
    minimum = unless_zero_float v s.minimum;
    maximum = unless_zero_float v s.maximum;
    others = none;
  }

  unfoldable pub from_fields : PbFields P F O → Outcome (SchemaFields V F O)
  unfolding from_type from_known
  from_fields s = do t ← from_type s.schema_type; ok (from_known s t)

  -- `ToAIPlatformSchema` and `FromAIPlatformSchema`, on a pointer.
  unfoldable pub to_schema :
      MaybeSchema (SchemaFields V F O) → Outcome (MaybeSchema (PbFields P F O))
  unfolding convert_maybe to_fields
  to_schema s = convert_maybe to_fields s

  unfoldable pub from_schema :
      MaybeSchema (PbFields P F O) → Outcome (MaybeSchema (SchemaFields V F O))
  unfolding convert_maybe from_fields
  from_schema s = convert_maybe from_fields s
