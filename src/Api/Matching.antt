-- ===== src/Api/Matching.antt =====
-- frontend/src/api/responseValidation.ts: which operation of the generated manifest a request is
-- for, and whether its response is checked. The manifest is generated and is an argument.
pub mod Laws
mod Tests
use query_craft.Common.{
  ℕ, String, Bool, true, false, not, ◌&&◌, ◌||◌, List, [], ◌∷◌, map, Option, none, some, keep, find,
  length, codes, codes_eq, ◌==◌, str_eq, if◌then◌else◌,
}
use query_craft.Common.Sorting.{sort_by, first}
use query_craft.Common.Value.{Value}

pub data Classification : Type 0 where
  consumed_json browser_redirect : Classification
  other : String → Classification

-- What the manifest says of a response: its status, as a text, and its schema, if it has one.
pub record Contract : Type 0 where
  pub status : String
  pub schema : Value

pub record Operation : Type 0 where
  pub operation_id : String
  pub method : String
  pub path : String
  pub classification : Classification
  pub responses : List Contract

-- `split('/')` of code points: the segments, of which there is at least one.
abbrev pub with_head : ℕ → List (List ℕ) → List (List ℕ)
with_head c [] = (c ∷ []) ∷ []
with_head c (s ∷ ss) = (c ∷ s) ∷ ss

unfoldable pub split : List ℕ → List (List ℕ)
split [] = [] ∷ []
split (c ∷ cs) = let rest = split cs in if c == b'/' then [] ∷ rest else with_head c rest

abbrev pub starts_open : List ℕ → Bool
starts_open [] = false
starts_open (c ∷ cs) = c == b'{'

abbrev pub ends_closed : List ℕ → Bool
ends_closed [] = false
ends_closed (c ∷ []) = c == b'}'
ends_closed (c ∷ d ∷ cs) = ends_closed (d ∷ cs)

-- A parameter matches any segment, anything else itself.
abbrev pub segment_matches : List ℕ → List ℕ → Bool
segment_matches segment actual =
    (starts_open segment && ends_closed segment) || codes_eq segment actual

unfoldable pub segments_match : List (List ℕ) → List (List ℕ) → Bool
segments_match [] [] = true
segments_match (e ∷ es) (a ∷ xs) = segment_matches e a && segments_match es xs
segments_match _ _ = false

unfoldable pub path_matches : String → String → Bool
unfolding split segments_match
path_matches template pathname = segments_match (split (codes template)) (split (codes pathname))

unfoldable pub parameters : Operation → ℕ
unfolding split
parameters o = length (keep starts_open (split (codes o.path)))

unfoldable pub candidates : List Operation → String → String → List Operation
candidates manifest method pathname =
    keep (λ o. str_eq o.method method && path_matches o.path pathname) manifest

-- `requestOperation`, by the method and the path of the request.
unfoldable pub request_operation : List Operation → String → String → Option Operation
unfolding candidates
request_operation manifest method pathname =
    first (sort_by parameters (candidates manifest method pathname))

-- `ok` says that the status of the response is one of success.
unfoldable pub should_validate_response : Operation → Bool → Bool
should_validate_response o ok = elim o.classification [
  | consumed_json ↦ true
  | browser_redirect ↦ false
  | other c ↦ not ok
]
