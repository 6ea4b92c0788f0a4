-- ===== src/Convert/Contents.antt =====
-- types/aiconv/aiconv.go: contents and their parts. Maps and structs of structpb are values of the
-- parameters `M` and `R`; a duration, which protocol buffers keep as it is, is a number. In a struct of
-- genai `others` stands for all fields that the conversions leave out, a value of the parameter `O`, or
-- `none` where each has its zero value.
pub mod Carried
use adk_go.Convert.Schemas.{unless_zero, is_zero}
use adk_go.Base.{
  ℤ, pos, Text, Bool, true, false, Option, none, some, List, [], ◌∷◌, Outcome, ok, fail, panic,
  length, eqb, ◌>>=◌, if◌then◌else◌,
}

-- `genai.Blob` and `genai.FileData`, where `others` is the display name, and their likes among the
-- protocol buffers.
pub record Blob (O : Type 0) : Type 0 where
  pub mime_type : Text
  pub bytes : Text
  pub others : Option O

pub record FileData (O : Type 0) : Type 0 where
  pub mime_type : Text
  pub file_uri : Text
  pub others : Option O

-- The fields of `genai.VideoMetadata` that are converted.
pub record VideoMetadata : Type 0 where
  pub start_offset : ℤ
  pub end_offset : ℤ

-- `aiplatformpb.VideoMetadata`
pub record PbVideoMetadata : Type 0 where
  pub start_offset : Option ℤ
  pub end_offset : Option ℤ

-- `genai.FunctionCall` or `genai.FunctionResponse`, with its arguments or its
-- response; `others` are whether and when a response goes on.
pub record Function (M O : Type 0) : Type 0 where
  pub id : Text
  pub name : Text
  pub values : Option M
  pub others : Option O

-- `aiplatformpb.FunctionCall` or `aiplatformpb.FunctionResponse`, which have no ID.
pub record PbFunction (R : Type 0) : Type 0 where
  pub name : Text
  pub values : Option R

-- `genai.Part`; `others` are its executable code, its result and the like.
pub record GenaiPart (M O : Type 0) : Type 0 where
  pub text : Text
  pub thought : Bool
  pub inline_data : Option (Blob O)
  pub file_data : Option (FileData O)
  pub function_call : Option (Function M O)
  pub function_response : Option (Function M O)
  pub video_metadata : Option VideoMetadata
  pub others : Option O

-- The field `Data` of `aiplatformpb.Part`: nil, or one of these, where the blob and the file are not
-- nil; the last is of a kind that is not converted.
pub data PartData (R O : Type 0) : Type 0 where
  no_data : PartData R O
  data_text : Text → PartData R O
  data_inline : Blob O → PartData R O
  data_file : FileData O → PartData R O
  data_call data_response : Option (PbFunction R) → PartData R O
  other_data : PartData R O

pub record PbPart (R O : Type 0) : Type 0 where
  pub data_ : PartData R O
  pub metadata : Option PbVideoMetadata

-- `genai.Content` and `aiplatformpb.Content`, on parts `A`; a nil part is `none`.
pub record Conversation (A : Type 0) : Type 0 where
  pub role : Text
  pub parts : List (Option A)

-- `structpb.NewStruct`, which may fail, and `AsMap`.
pub record Structs (M R : Type 0) : Type 0 where
  pub new_struct : M → Outcome R
  pub as_map : R → M

-- A conversion of a pointer, and of each element of a slice.
unfoldable pub convert_pointer : {A B : Type 0} → (A → Outcome B) → Option A → Outcome (Option B)
convert_pointer f none = ok none
convert_pointer f (some a) = do b ← f a; ok (some b)

unfoldable pub convert_all : {A B : Type 0} → (A → Outcome B) → List A → Outcome (List B)
convert_all f [] = ok []
convert_all f (a ∷ rest) = do b ← f a; bs ← convert_all f rest; ok (b ∷ bs)

-- `ToAIPlatformVideoMetadata`
unfoldable pub to_video_metadata : VideoMetadata → PbVideoMetadata
to_video_metadata v = record {
  start_offset = unless_zero v.start_offset;
  end_offset = unless_zero v.end_offset;
}

-- `FromAIPlatformVideoMetadata`
unfoldable pub from_video_metadata : PbVideoMetadata → VideoMetadata
from_video_metadata v = record {
  start_offset = elim v.start_offset [ none ↦ pos 0 | some n ↦ n ];
  end_offset = elim v.end_offset [ none ↦ pos 0 | some n ↦ n ];
}

abbrev pub empty_part : {M O : Type 0} → GenaiPart M O
empty_part = record {
  text = [];
  thought = false;
  inline_data = none;
  file_data = none;
  function_call = none;
  function_response = none;
  video_metadata = none;
  others = none;
}

abbrev pub without_metadata : {R O : Type 0} → PartData R O → PbPart R O
without_metadata d = record { data_ = d; metadata = none }

module _ {M R O : Type 0} (st : Structs M R) where
  -- `ToAIPlatformFunctionCall` and `ToAIPlatformFunctionResponse`
  unfoldable pub to_function : Function M O → Outcome (PbFunction R)
  to_function f = elim f.values [
    | none ↦ ok (record { name = f.name; values = none })
    | some m ↦ elim (st.new_struct m) [
      | ok r ↦ ok (record { name = f.name; values = some r })
      | fail e ↦ panic
      | panic ↦ panic
    ]
  ]

  -- `FromAIPlatformFunctionCall` and `FromAIPlatformFunctionResponse`
  unfoldable pub from_function : PbFunction R → Function M O
  from_function f = record {
    id = [];
    name = f.name;
    others = none;
    values = elim f.values [ none ↦ none | some r ↦ some (st.as_map r) ];
  }

  -- The cases of `ToAIPlatformPart` behind that of the text.
  unfoldable pub to_other :
      Option (Blob O)
      → Option (FileData O)
      → Option (Function M O)
      → Option (Function M O)
      → Option VideoMetadata
      → Outcome (PbPart R O)
  unfolding to_function to_video_metadata
  to_other (some b) file call response video =
      ok (without_metadata (data_inline (record b { others = none })))
  to_other none (some d) call response video =
      ok (without_metadata (data_file (record d { others = none })))
  to_other none none (some c) response video = do
    f ← to_function c
    ok (without_metadata (data_call (some f)))
  to_other none none none (some r) video = do
    f ← to_function r
    ok (without_metadata (data_response (some f)))
  to_other none none none none (some v) =
      ok (record { data_ = no_data; metadata = some (to_video_metadata v) })
  to_other none none none none none = panic

  -- `ToAIPlatformPart`
  unfoldable pub to_part : GenaiPart M O → Outcome (PbPart R O)
  unfolding to_other
  to_part p =
      if eqb (length p.text) 0
      then to_other p.inline_data p.file_data p.function_call p.function_response p.video_metadata
      else ok (without_metadata (data_text p.text))

  -- The cases of `FromAIPlatformPart` on the data.
  unfoldable pub from_data : PartData R O → Outcome (GenaiPart M O)
  unfolding from_function
  from_data (data_text t) = ok (record empty_part { text = t })
  from_data (data_inline b) =
      ok (record empty_part { inline_data = some (record b { others = none }) })
  from_data (data_file d) = ok (record empty_part { file_data = some (record d { others = none }) })
  from_data (data_call none) = ok empty_part
  from_data (data_call (some f)) = ok (record empty_part { function_call = some (from_function f) })
  from_data (data_response none) = ok empty_part
  from_data (data_response (some f)) =
      ok (record empty_part { function_response = some (from_function f) })
  from_data no_data = panic
  from_data other_data = panic

  -- `FromAIPlatformPart`
  unfoldable pub from_part : PbPart R O → Outcome (GenaiPart M O)
  unfolding from_data from_video_metadata
  from_part p = do
    g ← from_data p.data_
    elim p.metadata [
      | none ↦ ok g
      | some v ↦ ok (record g { video_metadata = some (from_video_metadata v) })
    ]

  -- `ToAIPlatformContent` and `FromAIPlatformContent`, on contents that are not nil.
  unfoldable pub to_content : Conversation (GenaiPart M O) → Outcome (Conversation (PbPart R O))
  unfolding to_part convert_pointer convert_all
  to_content c = do
    parts ← convert_all (convert_pointer to_part) c.parts
    ok (record { role = c.role; parts = parts })

  unfoldable pub from_content : Conversation (PbPart R O) → Outcome (Conversation (GenaiPart M O))
  unfolding from_part convert_pointer convert_all
  from_content c = do
    parts ← convert_all (convert_pointer from_part) c.parts
    ok (record { role = c.role; parts = parts })
