-- ===== src/Tests/Conversions.antt =====
-- Concrete conversions between genai and Vertex AI (types/aiconv/aiconv.go).
use adk_go.Convert.Contents.{
  GenaiPart, Conversation, Structs, PbPart, empty_part, to_content, from_content,
}
use adk_go.Convert.Contents.Carried.{from_content-to_content, carried_all}
use adk_go.Convert.Schemas.{
  Values, PbFields, SchemaFields, MaybeSchema, schema, a_schema, no_schema, property, no_properties,
  pb_object, pb_string, to_schema, from_schema,
}
use adk_go.Convert.Tools.{Tool, to_tools, from_tools}
use adk_go.Convert.Tools.Exact.{read_tool, read_schema, to_tools-from_tools}
use adk_go.Convert.Schemas.Exact.{at_maybe, read_only, IsPlain, to_schema-from_schema}
use adk_go.Convert.Undone.{behind}
use adk_go.Base.{
  map, ℕ, pos, true, [], ◌∷◌, some, none, ok, ◌≡◌, refl, codes, eqb, eqb_iff, List, Option,
}

abbrev same : Structs ℕ ℕ
same = record { new_struct = λ m. ok m; as_map = λ r. r }

-- A text, and a call with an ID.
abbrev asked : Conversation (GenaiPart ℕ ℕ)
asked = record {
  role = codes "model";
  parts =
      some (record empty_part { text = codes "hello"; thought = true })
      ∷ some (record empty_part {
        function_call =
            some (record {
              id = codes "c-1";
              name = codes "lookup";
              values = some 3;
              others = some 8;
            });
      })
      ∷ [];
}

from_content-to_content_example :
    (d : Conversation (PbPart ℕ ℕ)) × (to_content same asked ≡ ok d)
    × (from_content same d ≡ ok (record asked { parts = carried_all asked.parts }))
from_content-to_content_example = from_content-to_content same asked (tt, ((3, refl, refl), tt))

abbrev numbers : Values ℕ ℕ ℕ
numbers = record {
  new_value = λ v. ok v;
  as_interface = λ p. some p;
  zero_float = 0;
  is_zero_float = λ x. eqb x 0;
}

abbrev text_fields : PbFields ℕ ℕ ℕ
text_fields = record {
  schema_type = pb_string;
  format = [];
  description = codes "a name";
  pattern = [];
  enum = [];
  required = [];
  example = some 4;
  nullable = true;
  min_length = pos 1;
  max_length = pos 0;
  min_items = pos 0;
  max_items = pos 0;
  min_properties = pos 0;
  max_properties = pos 0;
  minimum = 0;
  maximum = 2;
  others = some 6;
}

-- An object with one property, a text.
abbrev person : MaybeSchema (PbFields ℕ ℕ ℕ)
person = a_schema (
    schema (record text_fields { schema_type = pb_object; example = none }) no_schema
      (property (codes "name") (a_schema (schema text_fields no_schema no_properties))
        no_properties))

text-IsPlain : IsPlain numbers text_fields
text-IsPlain = record {
  known = tt;
  survives = (4, refl, refl);
  plain_minimum = λ h. refl;
  plain_maximum = λ h. (eqb_iff 2 0).0 h;
}

object-IsPlain : IsPlain numbers (record text_fields { schema_type = pb_object; example = none })
object-IsPlain = record {
  known = tt;
  survives = tt;
  plain_minimum = λ h. refl;
  plain_maximum = λ h. (eqb_iff 2 0).0 h;
}

to_schema-from_schema_example :
    (t : MaybeSchema (SchemaFields ℕ ℕ ℕ)) × (from_schema numbers person ≡ ok t)
    × (to_schema numbers t ≡ ok (at_maybe (read_only numbers) person))
to_schema-from_schema_example =
    to_schema-from_schema numbers person (object-IsPlain, tt, ((text-IsPlain, tt, tt), tt))

-- A tool with the declaration of a function that takes a person, and a nil tool.
abbrev tools : List (Option (Tool (MaybeSchema (PbFields ℕ ℕ ℕ)) ℕ))
tools =
    some (record {
      function_declarations =
          some (record {
            name = codes "greet";
            description = [];
            parameters = person;
            others = some 7;
          })
          ∷ none
          ∷ [];
      code_execution = some none;
      google_search_retrieval = some (some 4);
      others = some 5;
    })
    ∷ none
    ∷ []

to_tools-from_tools_example :
    (us : List (Option (Tool (MaybeSchema (SchemaFields ℕ ℕ ℕ)) ℕ))) × (from_tools numbers tools
      ≡ ok us)
    × (to_tools numbers us ≡ ok (map (behind (read_tool (read_schema numbers))) tools))
to_tools-from_tools_example =
    to_tools-from_tools numbers tools
      (((object-IsPlain, tt, ((text-IsPlain, tt, tt), tt)), (tt, tt)), (tt, tt))
