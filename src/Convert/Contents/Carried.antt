-- ===== src/Convert/Contents/Carried.antt =====
-- What of a content of genai comes back from its conversion (types/aiconv/aiconv.go).
use adk_go.Convert.Contents.{
  to_function, from_function, to_other, to_part, from_data, from_part, to_content, from_content,
  convert_all, convert_pointer, PbFunction, PbPart, Conversation, Blob, FileData, Function,
  GenaiPart, Structs, empty_part, VideoMetadata, without_metadata, data_call, data_response,
  data_text,
}
use adk_go.Base.{false, Text, Option, none, some, List, [], ◌∷◌, ok, ◌≡◌, All, refl, ◌∙◌, arith}

-- A blob and a file without what the conversions leave out.
abbrev pub plain_blob : {O : Type 0} → Blob O → Blob O
plain_blob b = record b { others = none }

abbrev pub plain_file : {O : Type 0} → FileData O → FileData O
plain_file d = record d { others = none }

module _ {M O : Type 0} where
  -- The same of a function, whose ID the protocol buffers do not have.
  abbrev pub without_id : Function M O → Function M O
  without_id f = record f { id = []; others = none }

  -- The first of its fields that a part has, and nothing else.
  abbrev first_of :
      Text
      → Option (Blob O)
      → Option (FileData O)
      → Option (Function M O)
      → Option (Function M O)
      → GenaiPart M O
  first_of (c ∷ t) inline file call response = record empty_part { text = c ∷ t }
  first_of [] (some b) file call response = record empty_part { inline_data = some (plain_blob b) }
  first_of [] none (some d) call response = record empty_part { file_data = some (plain_file d) }
  first_of [] none none (some f) response = record empty_part {
    function_call = some (without_id f);
  }
  first_of [] none none none (some f) = record empty_part {
    function_response = some (without_id f);
  }
  first_of [] none none none none = empty_part

  abbrev pub carried : GenaiPart M O → GenaiPart M O
  carried p = first_of p.text p.inline_data p.file_data p.function_call p.function_response

  abbrev pub carried_all : List (Option (GenaiPart M O)) → List (Option (GenaiPart M O))
  carried_all [] = []
  carried_all (none ∷ ps) = none ∷ carried_all ps
  carried_all (some p ∷ ps) = some (carried p) ∷ carried_all ps

module _ {M R : Type 0} (st : Structs M R) where
  -- structpb takes the values and gives them back.
  abbrev pub Survives : Option M → Type 0
  Survives none = Unit
  Survives (some m) = (r : R) × (st.new_struct m ≡ ok r) × (st.as_map r ≡ m)

module _ {M R O : Type 0} (st : Structs M R) where
  -- The first of its fields that a part has, a video apart, survives.
  abbrev IsCarriedBy :
      Text
      → Option (Blob O)
      → Option (FileData O)
      → Option (Function M O)
      → Option (Function M O)
      → Type 0
  IsCarriedBy (c ∷ t) inline file call response = Unit
  IsCarriedBy [] (some b) file call response = Unit
  IsCarriedBy [] none (some d) call response = Unit
  IsCarriedBy [] none none (some f) response = Survives st f.values
  IsCarriedBy [] none none none (some f) = Survives st f.values
  IsCarriedBy [] none none none none = ⊥

  abbrev pub IsCarried : Option (GenaiPart M O) → Type 0
  IsCarried none = Unit
  IsCarried (some p) =
      IsCarriedBy p.text p.inline_data p.file_data p.function_call p.function_response

  to_function-by :
      (id name : Text) (values : Option M) (others : Option O)
      → Survives st values
      → (g : PbFunction R) × (to_function st
            (record { id = id; name = name; values = values; others = others })
          ≡ ok g)
        × (from_function {O = O} st g
            ≡ record { id = []; name = name; values = values; others = none })
  unfolding to_function from_function
  to_function-by id name none others h = (record { name = name; values = none }, refl, refl)
  to_function-by id name (some m) others (r, there, home) =
      (record { name = name; values = some r }, ground (arith, there), rw home refl)

  to_function-Survives :
      (f : Function M O)
      → Survives st f.values
      → (g : PbFunction R) × (to_function st f ≡ ok g) × (from_function st g ≡ without_id f)
  to_function-Survives f h = to_function-by f.id f.name f.values f.others h

  to_part-by :
      (t : Text) (inline : Option (Blob O)) (file : Option (FileData O))
      (call response : Option (Function M O)) (video : Option VideoMetadata)
      → IsCarriedBy t inline file call response
      → (d : PbPart R O) × (to_part st (record {
        text = t;
        thought = false;
        inline_data = inline;
        file_data = file;
        function_call = call;
        function_response = response;
        video_metadata = video;
        others = none;
      })
          ≡ ok d)
        × (from_part st d ≡ ok (first_of t inline file call response))
  unfolding to_part to_other from_part from_data
  to_part-by (c ∷ t) inline file call response video h =
      (without_metadata (data_text (c ∷ t)), ground arith, refl)
  to_part-by [] (some b) file call response video h = (_, refl, refl)
  to_part-by [] none (some d) call response video h = (_, refl, refl)
  to_part-by [] none none (some f) response video h =
      let (g, there, home) = to_function-Survives f h in
      (without_metadata (data_call (some g)), rw there refl, rw home refl)
  to_part-by [] none none none (some f) video h =
      let (g, there, home) = to_function-Survives f h in
      (without_metadata (data_response (some g)), rw there refl, rw home refl)
  to_part-by [] none none none none video h = absurd h

  -- The field `Thought` and the others are not read.
  to_part-thought :
      (p : GenaiPart M O) → to_part st p ≡ to_part st (record p { thought = false; others = none })
  unfolding to_part
  to_part-thought p = refl

  to_part-carried :
      (p : GenaiPart M O)
      → IsCarried (some p)
      → (d : PbPart R O) × (to_part st p ≡ ok d) × (from_part st d ≡ ok (carried p))
  to_part-carried p h =
      let (d, there, home) =
        to_part-by p.text p.inline_data p.file_data p.function_call p.function_response
          p.video_metadata h in
      (d, to_part-thought p ∙ there, home)

  to_parts-carried :
      (ps : List (Option (GenaiPart M O)))
      → All IsCarried ps
      → (ds : List (Option (PbPart R O))) × (convert_all (convert_pointer (to_part st)) ps ≡ ok ds)
        × (convert_all (convert_pointer (from_part st)) ds ≡ ok (carried_all ps))
  unfolding convert_all convert_pointer
  to_parts-carried [] h = ([], refl, refl)
  to_parts-carried (none ∷ ps) (h, rest) =
      let (ds, there, home) = to_parts-carried ps rest in (none ∷ ds, rw there refl, rw home refl)
  to_parts-carried (some p ∷ ps) (h, rest) =
      let (ds, there, home) = to_parts-carried ps rest in
      let (d, p_there, p_home) = to_part-carried p h in
      (some d ∷ ds, rw (p_there, there) refl, rw (p_home, home) refl)

  -- A content whose parts each have a text, data, a file, a call or a response comes back from its
  -- conversion to Vertex AI and back, without a panic, if structpb takes and gives back the values of
  -- its calls and responses. Of each part, the first of these comes back and nothing else: of data the
  -- MIME type and the bytes, of a file the MIME type and the URI, of a call or a response the name and the
  -- values, but neither its ID nor any other field.
  pub from_content-to_content :
      (c : Conversation (GenaiPart M O))
      → All IsCarried c.parts
      → (d : Conversation (PbPart R O)) × (to_content st c ≡ ok d)
        × (from_content st d ≡ ok (record c { parts = carried_all c.parts }))
  unfolding to_content from_content
  from_content-to_content c h =
      let (ds, there, home) = to_parts-carried c.parts h in
      (record { role = c.role; parts = ds }, rw there refl, rw home refl)
