-- ===== src/Convert/Schemas/Exact.antt =====
-- Converting a schema of Vertex AI to genai and back (types/aiconv/aiconv.go).
use adk_go.Convert.Schemas.{
  SchemaType, PbType, to_type, from_type, SchemaFields, PbFields, Schema, MaybeSchema, Properties,
  schema, no_schema, a_schema, no_properties, property, convert_schema, convert_maybe,
  convert_properties, from_known, Values, to_value, from_value, to_fields, from_fields, to_schema,
  from_schema, deref, unless_zero, unless_zero_float, pb_unspecified, pb_string, pb_number,
  pb_integer, pb_boolean, pb_array, pb_object, other_pb_type,
}
use adk_go.Convert.Undone.{IsReturned}
use adk_go.Base.{
  sym, zero, suc, ℤ, pos, negsuc, true, Option, none, some, Outcome, ok, ◌≡◌, refl, Bool-cases, inl,
  inr,
}

-- The predicate holds of the fields of every schema in the tree.
abbrev mutual
  pub AllSchema : {A : Type 0} → (A → Type 0) → Schema A → Type 0
  AllSchema p (schema a items props) = p a × AllMaybe p items × AllProperties p props

  pub AllMaybe : {A : Type 0} → (A → Type 0) → MaybeSchema A → Type 0
  AllMaybe p no_schema = Unit
  AllMaybe p (a_schema s) = AllSchema p s

  pub AllProperties : {A : Type 0} → (A → Type 0) → Properties A → Type 0
  AllProperties p no_properties = Unit
  AllProperties p (property k s props) = AllMaybe p s × AllProperties p props

mutual
  AllSchema-map :
      {A : Type 0} {p q : A → Type 0} (h : (a : A) → p a → q a) (s : Schema A)
      → AllSchema p s
      → AllSchema q s
  AllSchema-map h (schema a items props) (x, i, r) =
      (h a x, AllMaybe-map h items i, AllProperties-map h props r)

  AllMaybe-map :
      {A : Type 0} {p q : A → Type 0} (h : (a : A) → p a → q a) (s : MaybeSchema A)
      → AllMaybe p s
      → AllMaybe q s
  AllMaybe-map h no_schema x = tt
  AllMaybe-map h (a_schema s) x = AllSchema-map h s x

  AllProperties-map :
      {A : Type 0} {p q : A → Type 0} (h : (a : A) → p a → q a) (s : Properties A)
      → AllProperties p s
      → AllProperties q s
  AllProperties-map h no_properties x = tt
  AllProperties-map h (property k s props) (x, r) =
      (AllMaybe-map h s x, AllProperties-map h props r)

-- The function is applied to the fields of every schema in the tree.
abbrev mutual
  pub at_schema : {B : Type 0} → (B → B) → Schema B → Schema B
  at_schema f (schema b items props) = schema (f b) (at_maybe f items) (at_properties f props)

  pub at_maybe : {B : Type 0} → (B → B) → MaybeSchema B → MaybeSchema B
  at_maybe f no_schema = no_schema
  at_maybe f (a_schema s) = a_schema (at_schema f s)

  pub at_properties : {B : Type 0} → (B → B) → Properties B → Properties B
  at_properties f no_properties = no_properties
  at_properties f (property k s props) = property k (at_maybe f s) (at_properties f props)

module _ {A B : Type 0} (back : B → Outcome A) (forth : A → Outcome B) (f : B → B) where
  mutual
    unfolding convert_schema convert_maybe convert_properties

    schema-IsReturned :
        (s : Schema B)
        → AllSchema (λ b. IsReturned back forth b (f b)) s
        → (t : Schema A) × (convert_schema back s ≡ ok t)
          × (convert_schema forth t ≡ ok (at_schema f s))
    schema-IsReturned (schema b items props) ((a, there, home), i, p) =
        let (items', i_there, i_home) = maybe-IsReturned items i in
        let (props', p_there, p_home) = properties-IsReturned props p in
        (schema a items' props', rw (there, i_there, p_there) refl, rw (home, i_home, p_home) refl)

    maybe-IsReturned :
        (s : MaybeSchema B)
        → AllMaybe (λ b. IsReturned back forth b (f b)) s
        → (t : MaybeSchema A) × (convert_maybe back s ≡ ok t)
          × (convert_maybe forth t ≡ ok (at_maybe f s))
    maybe-IsReturned no_schema h = (no_schema, refl, refl)
    maybe-IsReturned (a_schema s) h =
        let (t, there, home) = schema-IsReturned s h in (a_schema t, rw there refl, rw home refl)

    properties-IsReturned :
        (s : Properties B)
        → AllProperties (λ b. IsReturned back forth b (f b)) s
        → (t : Properties A) × (convert_properties back s ≡ ok t)
          × (convert_properties forth t ≡ ok (at_properties f s))
    properties-IsReturned no_properties h = (no_properties, refl, refl)
    properties-IsReturned (property k s props) (h, p) =
        let (t, s_there, s_home) = maybe-IsReturned s h in
        let (props', p_there, p_home) = properties-IsReturned props p in
        (property k t props', rw (s_there, p_there) refl, rw (s_home, p_home) refl)

deref-unless_zero : (n : ℤ) → deref (pos 0) (unless_zero n) ≡ n
deref-unless_zero (pos zero) = refl
deref-unless_zero (pos (suc n)) = refl
deref-unless_zero (negsuc n) = refl

-- The type is one of those that are known.
abbrev pub IsKnown : PbType → Type 0
IsKnown (other_pb_type n) = ⊥
IsKnown _ = Unit

type-undone :
    (t : PbType) → IsKnown t → (u : SchemaType) × (from_type t ≡ ok u) × (to_type u ≡ ok t)
unfolding from_type to_type
type-undone pb_unspecified k = (_, refl, refl)
type-undone pb_string k = (_, refl, refl)
type-undone pb_number k = (_, refl, refl)
type-undone pb_integer k = (_, refl, refl)
type-undone pb_boolean k = (_, refl, refl)
type-undone pb_array k = (_, refl, refl)
type-undone pb_object k = (_, refl, refl)
type-undone (other_pb_type n) k = absurd k

module _ {V P F : Type 0} (v : Values V P F) where
  -- structpb gives the example back, which is no null value.
  abbrev pub Survives : Option P → Type 0
  Survives none = Unit
  Survives (some p) = (x : V) × (v.as_interface p ≡ some x) × (v.new_value x ≡ ok p)

  example-undone : (e : Option P) → Survives e → to_value v (from_value v e) ≡ ok e
  unfolding to_value from_value
  example-undone none h = refl
  example-undone (some p) (x, there, home) = rw there (rw (to_value, home) refl)

  deref-unless_zero_float :
      (x : F)
      → (v.is_zero_float x ≡ true → x ≡ v.zero_float)
      → deref v.zero_float (unless_zero_float v x) ≡ x
  deref-unless_zero_float x h = elim (Bool-cases (v.is_zero_float x)) [
    | inl zero_x ↦ rw zero_x (sym (h zero_x))
    | inr other ↦ rw other refl
  ]

module _ {V P F O : Type 0} (v : Values V P F) where
  -- A known type, an example that survives, and limits that are not the negative zero.
  pub record IsPlain (s : PbFields P F O) : Type 0 where
    pub known : IsKnown s.schema_type
    pub survives : Survives v s.example
    pub plain_minimum : v.is_zero_float s.minimum ≡ true → s.minimum ≡ v.zero_float
    pub plain_maximum : v.is_zero_float s.maximum ≡ true → s.maximum ≡ v.zero_float

  -- The fields that the conversions read, and no others.
  abbrev pub read_only : PbFields P F O → PbFields P F O
  read_only s = record s { others = none }

  fields-IsReturned :
      (s : PbFields P F O) → IsPlain s → IsReturned (from_fields v) (to_fields v) s (read_only s)
  unfolding from_fields from_known to_fields
  fields-IsReturned s plain =
      let (t, there, home) = type-undone s.schema_type plain.known in
      let e = example-undone v s.example plain.survives in
      let low = deref-unless_zero_float v s.minimum plain.plain_minimum in
      let high = deref-unless_zero_float v s.maximum plain.plain_maximum in
      (
        from_known v s t,
        rw there refl,
        rw
            (
              home,
              e,
              low,
              high,
              deref-unless_zero s.min_length,
              deref-unless_zero s.max_length,
              deref-unless_zero s.min_items,
              deref-unless_zero s.max_items,
              deref-unless_zero s.min_properties,
              deref-unless_zero s.max_properties,
            )
            refl,
      )

  -- A schema of Vertex AI is converted to genai and back without a panic, if in it and in every schema
  -- below it the type is known, the example comes back from structpb, and no limit is a zero other than
  -- the one that a new struct has. What comes back has, at every level, the same fields as before, but
  -- for those that the conversions leave out (a title, a default, alternatives, the order of
  -- properties and the like), which have their zero value.
  pub to_schema-from_schema :
      (s : MaybeSchema (PbFields P F O))
      → AllMaybe IsPlain s
      → (t : MaybeSchema (SchemaFields V F O)) × (from_schema v s ≡ ok t)
        × (to_schema v t ≡ ok (at_maybe read_only s))
  unfolding from_schema to_schema
  to_schema-from_schema s plain =
      maybe-IsReturned (from_fields v) (to_fields v) read_only s
        (AllMaybe-map fields-IsReturned s plain)
