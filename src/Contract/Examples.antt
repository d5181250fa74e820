-- ===== src/Contract/Examples.antt =====
-- Tests of the contract checks, and their theorem at a request with its required parameter.
use mcp_swagger.Prelude.{◌≡◌, refl, true, false, pos, some, List, [], ◌∷◌}
use mcp_swagger.Text.{Text, codes, text_eq, is_space, lower_char, to_lower, trim_space, member}
use mcp_swagger.Dict.{Dict, get}
use mcp_swagger.Float.{int64_of, equals_int}
use mcp_swagger.Value.{Value, num, strings, str, arr, obj, nil, cons, end, field, find_field}
use mcp_swagger.Contract.Operation.{Param, ResponseGroups, ResolvedOperation, PreparedRequest}
use mcp_swagger.Contract.Schema.{decimal, unique_strings, schema_type, has_type, schema_required}
use mcp_swagger.Contract.Validator.{depth, validate_step, validate, validate_value_against_schema}
use mcp_swagger.Contract.Conforms.{conforms}
use mcp_swagger.Contract.Decides.{validate_iff_conforms}
use mcp_swagger.Contract.Unroll.{validate_unrolls}
use mcp_swagger.Contract.Validate.{validate_required_headers, validate_prepared_request}
use mcp_swagger.Contract.Checks.{
  response_with, response_schema_for_status, validate_required_params,
}

abbrev pet_params : List Param
pet_params =
    record { name = codes "petId"; required = true }
    ∷ record { name = codes "view"; required = false }
    ∷ []

abbrev pet_values : Dict Text
pet_values = (codes "petId", codes "7") ∷ []

abbrev pet_responses : ResponseGroups
pet_responses = record {
  success = record { status = 0; body_schema = Value.null } ∷ [];
  errors = record { status = 404; body_schema = Value.bool true } ∷ [];
}

exact_error_wins : response_schema_for_status pet_responses 404 ≡ some (Value.bool true)
unfolding response_schema_for_status response_with
exact_error_wins = refl

blank_is_missing :
    validate_required_params (λ t. t) pet_params ((codes "petId", codes " ") ∷ []) (codes "path")
    ≡ codes "missing required path parameter petId" ∷ []
unfolding validate_required_params get text_eq trim_space is_space
blank_is_missing = refl

pet_id_given : get (codes "petId") pet_values ≡ some (codes "7")
unfolding get text_eq
pet_id_given = refl

seven_not_blank : trim_space (codes "7") ≡ codes "7"
unfolding trim_space is_space
seven_not_blank = refl

-- A number beyond the range of an int64 is no integer.
far_number_is_no_integer :
    has_type (codes "integer") (num (pos 10_000_000_000_000_000_000) 0) ≡ false
unfolding has_type int64_of equals_int text_eq
far_number_is_no_integer = refl

near_number_is_integer : has_type (codes "integer") (num (pos 700) 2) ≡ true
unfolding has_type int64_of equals_int text_eq
near_number_is_integer = refl

-- A schema that the resolver gave two types has no type.
two_types_are_none :
    schema_type (field (codes "type") (strings (codes "string" ∷ codes "null" ∷ [])) end) ≡ []
unfolding schema_type text_eq find_field
two_types_are_none = refl

-- A schema of an object with a required name and tags that are strings.
abbrev pet_schema : Value
pet_schema = obj (
    field (codes "type") (str (codes "object")) (
      field (codes "required") (arr (cons (str (codes "name")) nil)) (
        field (codes "properties")
          (obj (
            field (codes "tags")
              (obj (
                field (codes "type") (str (codes "array")) (
                  field (codes "items") (obj (field (codes "type") (str (codes "string")) end))
                    end)))
              end))
          end)))

abbrev bad_pet : Value
bad_pet = obj (field (codes "tags") (arr (cons (str (codes "a")) (cons Value.null nil))) end)

issues_of_bad_pet :
    validate_value_against_schema (λ v. []) bad_pet pet_schema (codes "body")
    ≡ codes "body.name is required" ∷ codes "body.tags[1]: expected string" ∷ []
unfolding validate_value_against_schema validate validate_step schema_type has_type schema_required
    unique_strings decimal find_field depth text_eq trim_space is_space to_lower lower_char member
issues_of_bad_pet = refl

abbrev pet_endpoint : ResolvedOperation
pet_endpoint = record {
  operation_id = codes "putPet";
  method = codes "put";
  base_url = [];
  path_template = codes "/pets/{petId}";
  url_template = [];
  path_params = pet_params;
  query_params = [];
  header_params = [];
  body_schema = pet_schema;
  responses = pet_responses;
  servers = [];
}

abbrev put_pet : PreparedRequest
put_pet = record {
  operation_id = codes "putPet";
  method = codes "PUT";
  path = codes "/pets/7";
  url = [];
  path_params = pet_values;
  query_params = [];
  headers = [];
  content_type = [];
  body_input = obj (field (codes "name") (str (codes "Rex")) end);
  body_bytes = [];
}

no_issues_of_put_pet : validate_prepared_request (λ v. []) (λ t. t) pet_endpoint put_pet ≡ []
unfolding validate_prepared_request validate_required_params validate_required_headers
    validate_value_against_schema validate validate_step schema_type has_type schema_required
    unique_strings get decimal find_field depth text_eq trim_space is_space to_lower lower_char
    member
no_issues_of_put_pet = refl

no_issues_of_name :
    validate_value_against_schema (λ v. []) put_pet.body_input pet_schema (codes "body") ≡ []
unfolding validate_value_against_schema validate validate_step schema_type has_type schema_required
    unique_strings get decimal find_field depth text_eq trim_space is_space to_lower lower_char
    member
no_issues_of_name = refl

validate_iff_conforms_example : conforms (λ v. []) put_pet.body_input pet_schema ≡ true
validate_iff_conforms_example =
    (validate_iff_conforms (λ v. []) put_pet.body_input pet_schema (codes "body")).0
      no_issues_of_name

validate_unrolls_example :
    validate_value_against_schema (λ v. []) bad_pet pet_schema (codes "body")
    ≡ validate_step
        (λ v. [])
        (validate_value_against_schema (λ v. []))
        bad_pet
        pet_schema
        (codes "body")
validate_unrolls_example = validate_unrolls (λ v. []) bad_pet pet_schema (codes "body")
