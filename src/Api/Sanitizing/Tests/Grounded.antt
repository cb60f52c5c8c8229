-- ===== src/Api/Sanitizing/Tests/Grounded.antt =====
-- That sanitizing by the schemas of the example ends.
use mathlib.Core.Option.{some-injective}
use query_craft.Common.{
  ℕ, ◌≤◌, ◌<◌, ◌≡◌, subst, true, some, arith, All, last_segment, if◌then◌else◌,
}
use query_craft.Common.Value.{Value, get, is_object, is_truthy}
use query_craft.Api.Semantics.{items_of}
use query_craft.Api.Sanitizing.{alternatives_of, reference_target, is_array, entries}
use query_craft.Api.Sanitizing.Fuel.{AllValues, IsClosed}
use query_craft.Api.Sanitizing.Termination.{IsGrounded}
use query_craft.Api.Sanitizing.Tests.{
  leaf, reference, refine_schema, result_schema, union_schema, components,
}

-- The schemas of the example.
pub data ExampleSchema : Value → Type 0 where
  leaf_schema : ExampleSchema leaf
  refine : ExampleSchema refine_schema
  result : ExampleSchema result_schema
  to_refine : ExampleSchema (reference "#/Refine")
  to_result : ExampleSchema (reference "#/Result")
  union : ExampleSchema union_schema

example_closed : IsClosed ExampleSchema
example_closed = record { in_items = items; in_properties = properties; in_additional = additional }
  where
    items :
        (s : Value)
        → ExampleSchema s
        → is_object (get "items" s) ≡ true
        → ExampleSchema (get "items" s)
    items s leaf_schema h = cc
    items s refine h = cc
    items s result h = cc
    items s to_refine h = cc
    items s to_result h = cc
    items s union h = cc

    properties :
        (s : Value) → ExampleSchema s → AllValues ExampleSchema (entries (get "properties" s))
    properties s leaf_schema = tt
    properties s refine = (leaf_schema, (leaf_schema, tt))
    properties s result =
        (leaf_schema, (leaf_schema, (leaf_schema, (leaf_schema, (leaf_schema, tt)))))
    properties s to_refine = tt
    properties s to_result = tt
    properties s union = tt

    additional :
        (s : Value)
        → ExampleSchema s
        → is_object (get "additionalProperties" s) ≡ true
        → ExampleSchema (get "additionalProperties" s)
    additional s leaf_schema h = cc
    additional s refine h = cc
    additional s result h = cc
    additional s to_refine h = cc
    additional s to_result h = cc
    additional s union h = cc

abbrev pub depth : Value → ℕ
depth s = if is_array (get "anyOf" s) then 2 else if is_truthy (get "$ref" s) then 1 else 0

pub example-IsGrounded : IsGrounded components ExampleSchema depth 2
unfolding reference_target last_segment alternatives_of
example-IsGrounded = record {
  closed = example_closed;
  bounded = bounded;
  referring = referring;
  choosing = choosing;
}
  where
    bounded : (s : Value) → ExampleSchema s → depth s ≤ 2
    bounded s e = ground arith

    referring :
        (s target : Value)
        → ExampleSchema s
        → reference_target components s ≡ some target
        → ExampleSchema target × (depth target < depth s)
    referring s target leaf_schema h = cc
    referring s target refine h = cc
    referring s target result h = cc
    referring s target to_refine h =
        subst (λ t. ExampleSchema t × (depth t < 1)) (some-injective _ _ h) (refine, omega arith)
    referring s target to_result h =
        subst (λ t. ExampleSchema t × (depth t < 1)) (some-injective _ _ h) (result, omega arith)
    referring s target union h = cc

    choosing :
        (s : Value)
        → ExampleSchema s
        → All (λ a. ExampleSchema a × (depth a < depth s)) (items_of (alternatives_of s))
    choosing s leaf_schema = tt
    choosing s refine = tt
    choosing s result = tt
    choosing s to_refine = tt
    choosing s to_result = tt
    choosing s union = ((to_refine, omega arith), ((to_result, omega arith), tt))
