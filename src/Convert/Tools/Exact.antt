-- ===== src/Convert/Tools/Exact.antt =====
-- Converting tools and configurations of Vertex AI to genai and back (types/aiconv/aiconv.go).
use adk_go.Convert.Tools.{
  FunctionDeclaration, Tool, GenerationConfig, PbGenerationConfig, emptied, convert_declaration,
  convert_tool, convert_tools, to_tools, from_tools, to_generation_config, from_generation_config,
}
use adk_go.Convert.Undone.{
  IsReturned, IsPointedTo, behind, convert_all-IsReturned, convert_pointer-IsReturned,
}
use adk_go.Convert.Contents.{convert_pointer}
use adk_go.Convert.Schemas.{
  Values, SchemaFields, PbFields, MaybeSchema, to_schema, from_schema, unless_zero, deref,
}
use adk_go.Convert.Schemas.Exact.{AllMaybe, IsPlain, at_maybe, read_only, to_schema-from_schema}
use adk_go.Base.{
  ℤ, pos, suc, zero, negsuc, Option, none, some, List, Outcome, ok, ◌≡◌, All, refl, map,
}

-- The number behind a pointer is not 0.
abbrev pub IsNoZero : Option ℤ → Type 0
IsNoZero (some (pos zero)) = ⊥
IsNoZero _ = Unit

unless_zero-deref : (n : Option ℤ) → IsNoZero n → unless_zero (deref (pos 0) n) ≡ n
unless_zero-deref none h = refl
unless_zero-deref (some (pos zero)) h = absurd h
unless_zero-deref (some (pos (suc n))) h = refl
unless_zero-deref (some (negsuc n)) h = refl

-- A pointer to an empty struct stays one.
emptied-emptied : {O : Type 0} (e : Option (Option O)) → emptied (emptied e) ≡ emptied e
emptied-emptied none = refl
emptied-emptied (some fields) = refl

-- A declaration and a tool with the fields that the conversions read, and no others.
abbrev pub read_declaration :
    {S O : Type 0} → (S → S) → FunctionDeclaration S O → FunctionDeclaration S O
read_declaration f d = record d { parameters = f d.parameters; others = none }

abbrev pub read_tool : {S O : Type 0} → (S → S) → Tool S O → Tool S O
read_tool f t = record t {
  function_declarations = map (behind (read_declaration f)) t.function_declarations;
  code_execution = emptied t.code_execution;
  google_search_retrieval = emptied t.google_search_retrieval;
  others = none;
}

module _ {S S' O : Type 0} (back : S' → Outcome S) (forth : S → Outcome S') (f : S' → S')
    {p : S' → Type 0} (h : (s : S') → p s → IsReturned back forth s (f s)) where
  -- The predicate holds of the parameters of each declaration that is there.
  abbrev IsPlainDeclaration : FunctionDeclaration S' O → Type 0
  IsPlainDeclaration d = p d.parameters

  abbrev IsPlainTool : Tool S' O → Type 0
  IsPlainTool t = All (IsPointedTo IsPlainDeclaration) t.function_declarations

  declaration-IsReturned :
      (d : FunctionDeclaration S' O)
      → p d.parameters
      → IsReturned (convert_declaration back) (convert_declaration forth) d (read_declaration f d)
  unfolding convert_declaration
  declaration-IsReturned d plain =
      let (s, there, home) = h d.parameters plain in
      (
        record { name = d.name; description = d.description; parameters = s; others = none },
        rw there refl,
        rw home refl,
      )

  tool-IsReturned :
      (t : Tool S' O)
      → IsPlainTool t
      → IsReturned (convert_tool back) (convert_tool forth) t (read_tool f t)
  unfolding convert_tool
  tool-IsReturned t plain =
      let (ds, there, home) =
        convert_all-IsReturned (convert_pointer (convert_declaration back))
          (convert_pointer (convert_declaration forth)) (behind (read_declaration f))
          (convert_pointer-IsReturned (convert_declaration back) (convert_declaration forth)
            (read_declaration f) declaration-IsReturned)
          t.function_declarations plain in
      (
        record {
          function_declarations = ds;
          code_execution = emptied t.code_execution;
          google_search_retrieval = emptied t.google_search_retrieval;
          others = none;
        },
        rw there refl,
        rw (home, emptied-emptied t.code_execution, emptied-emptied t.google_search_retrieval) refl,
      )

  tools-IsReturned :
      (ts : List (Option (Tool S' O)))
      → All (IsPointedTo IsPlainTool) ts
      → IsReturned (convert_tools back) (convert_tools forth) ts (map (behind (read_tool f)) ts)
  unfolding convert_tools
  tools-IsReturned ts plain =
      convert_all-IsReturned (convert_pointer (convert_tool back))
        (convert_pointer (convert_tool forth)) (behind (read_tool f))
        (convert_pointer-IsReturned (convert_tool back) (convert_tool forth) (read_tool f)
          tool-IsReturned)
        ts plain

module _ {V P F O : Type 0} (v : Values V P F) where
  -- The fields of a schema that the conversions read, at every level.
  abbrev pub read_schema : MaybeSchema (PbFields P F O) → MaybeSchema (PbFields P F O)
  read_schema = at_maybe (read_only v)

  -- The schema of the parameters of each declaration of the tool comes back.
  abbrev pub IsExact : Tool (MaybeSchema (PbFields P F O)) O → Type 0
  IsExact t = All (IsPointedTo (λ d. AllMaybe (IsPlain v) d.parameters)) t.function_declarations

  -- Tools of Vertex AI, nil ones and nil declarations among them, are converted to genai and back without
  -- a panic, if in the schemas of the parameters of each declaration the types are known, the examples
  -- come back from structpb, and no limit is a zero other than the one that a new struct has. What comes
  -- back are the same declarations in their order, each with its name, its description and the fields of
  -- its parameters that the conversions read, and whether there is a code execution and a search
  -- retrieval. Everything else has its zero value: the other fields of a tool (a search, a retrieval),
  -- of a declaration (a response) and of a schema, and the fields of a search retrieval.
  pub to_tools-from_tools :
      (ts : List (Option (Tool (MaybeSchema (PbFields P F O)) O)))
      → All (IsPointedTo IsExact) ts
      → (us : List (Option (Tool (MaybeSchema (SchemaFields V F O)) O))) × (from_tools v ts ≡ ok us)
        × (to_tools v us ≡ ok (map (behind (read_tool read_schema)) ts))
  unfolding from_tools to_tools
  to_tools-from_tools ts plain =
      tools-IsReturned (from_schema v) (to_schema v) read_schema (to_schema-from_schema v) ts plain

  -- The configuration of a generation comes back, with the fields that the conversions read, if its schema
  -- is of that kind and the counts that it has are not 0.
  to_generation_config-from_generation_config :
      (c : PbGenerationConfig (MaybeSchema (PbFields P F O)) F O)
      → IsNoZero c.candidate_count
      → IsNoZero c.max_output_tokens
      → AllMaybe (IsPlain v) c.response_schema
      → (g : GenerationConfig (MaybeSchema (SchemaFields V F O)) F O) × (from_generation_config v c
          ≡ ok g)
        × (to_generation_config v g
            ≡ ok (record c { response_schema = read_schema c.response_schema; others = none }))
  unfolding from_generation_config to_generation_config
  to_generation_config-from_generation_config c count tokens plain =
      let (s, there, home) = to_schema-from_schema v c.response_schema plain in
      (
        record {
          temperature = c.temperature;
          top_p = c.top_p;
          top_k = c.top_k;
          candidate_count = deref (pos 0) c.candidate_count;
          max_output_tokens = deref (pos 0) c.max_output_tokens;
          stop_sequences = c.stop_sequences;
          response_mime_type = c.response_mime_type;
          response_schema = s;
          others = none;
        },
        rw there refl,
        rw
            (
              home,
              unless_zero-deref c.candidate_count count,
              unless_zero-deref c.max_output_tokens tokens,
            )
            refl,
      )
