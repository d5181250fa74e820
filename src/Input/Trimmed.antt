-- ===== src/Input/Trimmed.antt =====
-- What the tools may rely on in a parsed input, and the two forms of an input.
use mcp_swagger.Prelude.{
  ◌≡◌, ◌≢◌, refl, Bool, true, false, ◌&&◌, Option, none, some, [], ◌∷◌, arith, if_rule, subst,
}
use mcp_swagger.Text.{Text, codes, is_empty, trim_space}
use mcp_swagger.Text.Laws.{trim_space_idem}
use mcp_swagger.Value.{Value, obj, Fields}
use mcp_swagger.Contract.Operation.{ExecuteInput}
use mcp_swagger.Input.Values.{
  Numbers, to_any_map, to_any_map_or_nil, map_value, param_or_legacy, value_as_string,
  value_as_string_map,
}
use mcp_swagger.Input.Parse.{
  ToolInputEnvelope, filled_or, ◌⟫◌, text_at, parse_tool_input_envelope, parse_execute_input,
  read_envelope, read_params, envelope_of, execute_input_of, params_of, confirmation_id_of,
  query_or,
}

abbrev pub IsTrimmed : Text → Type 0
IsTrimmed t = trim_space t ≡ t

-- A result that is there comes from a step that is there.
bind_some {ℓ κ} :
    {A : Type ℓ} {B : Type κ} (o : Option A) (f : A → Option B) (b : B)
    → (o ⟫ f) ≡ some b
    → (a : A) × (o ≡ some a) × (f a ≡ some b)
bind_some none f b h = ground arith
bind_some (some a) f b h = (a, refl, h)

some_inj {ℓ} : {A : Type ℓ} {a b : A} → some a ≡ some b → a ≡ b
some_inj h = cc

three_some {ℓ κ} :
    {A : Type ℓ} {B : Type κ} (x y z : Option A) (make : A → A → A → B) (b : B)
    → (x ⟫ λ a. y ⟫ λ a'. z ⟫ λ a''. some (make a a' a'')) ≡ some b
    → (a : A) × (a' : A) × (a'' : A) × (make a a' a'' ≡ b)
three_some none y z make b h = ground arith
three_some (some a) none z make b h = ground arith
three_some (some a) (some a') none make b h = ground arith
three_some (some a) (some a') (some a'') make b h = (a, a', a'', some_inj h)

not_empty :
    (required : Bool) (t : Text) → (required && is_empty t) ≡ false → required ≡ true → t ≢ []
not_empty required [] h on e = ground arith
not_empty required (c ∷ t) h on e = ground arith

IsTrimmed-filled_or : (s t : Text) → IsTrimmed s → IsTrimmed t → IsTrimmed (filled_or s t)
IsTrimmed-filled_or [] t hs ht = ht
IsTrimmed-filled_or (c ∷ s) t hs ht = hs

-- What holds of every envelope.
pub record IsSound (required : Bool) (e : ToolInputEnvelope) : Type 0 where
  pub id_trimmed : IsTrimmed e.operation_id
  pub base_url_trimmed : IsTrimmed e.base_url
  pub content_type_trimmed : IsTrimmed e.content_type
  pub named : required ≡ true → e.operation_id ≢ []

module _ (numbers : Numbers) where
  text_at-IsTrimmed : (fs : Fields) (key : Text) → IsTrimmed (text_at numbers fs key)
  text_at-IsTrimmed fs key = trim_space_idem (value_as_string numbers (map_value fs key))

  envelope_of-IsSound :
      (required : Bool) (in_map path query headers : Fields) (body : Value)
      → let id =
          filled_or
            (text_at numbers in_map (codes "operationId"))
            (text_at numbers in_map (codes "operationID")) in
        (required && is_empty id) ≡ false
        → IsSound required (envelope_of numbers in_map path query headers body id)
  envelope_of-IsSound required in_map path query headers body h =
      let trimmed : (s t : Text)
          → IsTrimmed (filled_or (text_at numbers in_map s) (text_at numbers in_map t)) =
        λ s t.
          IsTrimmed-filled_or (text_at numbers in_map s) (text_at numbers in_map t)
            (text_at-IsTrimmed in_map s) (text_at-IsTrimmed in_map t) in
      record {
        id_trimmed = trimmed (codes "operationId") (codes "operationID");
        base_url_trimmed = trimmed (codes "baseURL") (codes "baseUrl");
        content_type_trimmed = trimmed (codes "contentType") (codes "content_type");
        named = not_empty required _ h;
      }

  read_params-IsSound :
      (required : Bool) (in_map params : Fields) (e : ToolInputEnvelope)
      → let id =
          filled_or
            (text_at numbers in_map (codes "operationId"))
            (text_at numbers in_map (codes "operationID")) in
        (required && is_empty id) ≡ false
        → read_params numbers in_map id params ≡ some e
        → IsSound required e
  read_params-IsSound required in_map params e filled h =
      let id =
        filled_or (text_at numbers in_map (codes "operationId"))
          (text_at numbers in_map (codes "operationID")) in
      let body = param_or_legacy params (codes "body") (map_value in_map (codes "body")) in
      let parts =
        three_some
          (to_any_map_or_nil
            (param_or_legacy params (codes "path") (map_value in_map (codes "pathParams"))))
          (to_any_map_or_nil
            (param_or_legacy params (codes "query") (map_value in_map (codes "queryParams"))))
          (to_any_map_or_nil
            (param_or_legacy params (codes "headers") (map_value in_map (codes "headers"))))
          (λ path query headers. envelope_of numbers in_map path query headers body id) e h in
      subst (IsSound required) parts.3
        (envelope_of-IsSound required in_map parts.0 parts.1 parts.2 body filled)

  read_envelope-IsSound :
      (required : Bool) (in_map : Fields) (e : ToolInputEnvelope)
      → read_envelope numbers required in_map ≡ some e
      → IsSound required e
  read_envelope-IsSound required in_map e =
      let id =
        filled_or (text_at numbers in_map (codes "operationId"))
          (text_at numbers in_map (codes "operationID")) in
      if_rule (λ o. o ≡ some e → IsSound required e) (required && is_empty id) none
        (params_of in_map ⟫ read_params numbers in_map id) (λ _ h. ground arith)
        λ filled h.
          let params = bind_some (params_of in_map) (read_params numbers in_map id) e h in
          read_params-IsSound required in_map params.0 e filled params.2

  envelope-IsSound :
      (input : Value) (required : Bool) (e : ToolInputEnvelope)
      → parse_tool_input_envelope numbers input required ≡ some e
      → IsSound required e
  unfolding parse_tool_input_envelope
  envelope-IsSound input required e h =
      let in_map = bind_some (to_any_map input) (read_envelope numbers required) e h in
      read_envelope-IsSound required in_map.0 e in_map.2

  -- The attributes of an executable call that its gates read.
  abbrev pub IsIdentified : ExecuteInput → Type 0
  IsIdentified x =
      (x.operation_id ≢ [])
      × IsTrimmed x.operation_id
      × IsTrimmed x.base_url
      × IsTrimmed x.confirmation_id

  confirmation_id-IsTrimmed :
      (in_map query : Fields) → IsTrimmed (confirmation_id_of numbers in_map query)
  confirmation_id-IsTrimmed in_map query =
      let at : (fs : Fields) (key : Text) → IsTrimmed (text_at numbers fs key) =
        text_at-IsTrimmed in
      IsTrimmed-filled_or _ _ (at in_map (codes "confirmationId")) (
        IsTrimmed-filled_or _ _ (at in_map (codes "confirmationID")) (
          IsTrimmed-filled_or _ _ (at in_map (codes "confirmationToken")) (
            IsTrimmed-filled_or _ _ (at query (codes "confirmationId"))
              (at query (codes "confirmationToken")))))

  execute_input_of-IsIdentified :
      (e : ToolInputEnvelope) (in_map : Fields) (x : ExecuteInput)
      → IsSound true e
      → execute_input_of numbers e in_map ≡ some x
      → IsIdentified x
  execute_input_of-IsIdentified e in_map x sound h =
      let query = query_or numbers e.query in_map in
      let parts =
        three_some (value_as_string_map numbers (obj e.path))
          (value_as_string_map numbers (obj query)) (value_as_string_map numbers (obj e.headers)) _
          x h in
      subst IsIdentified parts.3 (
        sound.named refl,
        sound.id_trimmed,
        sound.base_url_trimmed,
        confirmation_id-IsTrimmed in_map query,
      )

-- An input that parseExecuteInput accepts names an operation, and its operation id, its base URL
-- and its confirmation id have no spaces around them, whichever of their spellings the caller
-- used.
pub parse_execute_input-IsIdentified :
    (numbers : Numbers) (input : Value) (x : ExecuteInput)
    → parse_execute_input numbers input ≡ some x
    → IsIdentified numbers x
unfolding parse_execute_input
parse_execute_input-IsIdentified numbers input x h =
    let e =
      bind_some (parse_tool_input_envelope numbers input true)
        (λ e. to_any_map input ⟫ execute_input_of numbers e) x h in
    let in_map = bind_some (to_any_map input) (execute_input_of numbers e.0) x e.2 in
    execute_input_of-IsIdentified numbers e.0 in_map.0 x
      (envelope-IsSound numbers input true e.0 e.1) in_map.2
