-- ===== src/Admin/Roles/Tests.antt =====
-- A role whose creation fails in the network and has nevertheless been saved, and an update likewise.
use Prim.Native.Char.{Char, code}
use Prim.Native.String.{char_at}
use mathlib.Core.Path.{ap₂}
use query_craft.Common.{ℕ, ap, sym, arith, ◌≡◌, ◌⊎◌, refl, String, true, false, List, [], ◌∷◌, some}
use query_craft.Common.Int.{pos}
use query_craft.Common.Value.{
  Value, Items, Settled, resolved, rejected, plain, error, bool, str, int, null, arr, obj, nil,
  cons, end, field, is_same,
}
use query_craft.Admin.Roles.{
  Platform, normalize_role, normalize_policy, connection_policies, policy_count,
  is_ambiguous_network_failure, sort_values, canonicalize, same_value, role_matches_update,
  role_could_be_created_candidate, role_matches_create,
}
use query_craft.Admin.Roles.Asked.{texts, IsAsked}
use query_craft.Admin.Roles.Saving.{
  saved, fetch_authoritative_role, fetch_authoritative_roles, committed_roles, recovered_create,
  create_role, update_role,
}
use query_craft.Admin.Roles.Laws.{IsCreated, create_role-saved, update_role-saved}

-- A platform that prints arrays of texts with a mark before each character and another behind each text,
-- and for which every error is one of the network.
abbrev print_text : String → String → String
print_text String.[] rest = String.◌∷◌ (char_at ".x" 0) rest
print_text (String.◌∷◌ c s) rest = String.◌∷◌ (char_at ".x" 1) (String.◌∷◌ c (print_text s rest))

abbrev print_items : Items → String
print_items nil = String.[]
print_items (cons (str s) vs) = print_text s (print_items vs)
print_items (cons v vs) = print_items vs

abbrev print : Value → String
print (arr vs) = print_items vs
print v = ""

abbrev head_code : String → ℕ
head_code String.[] = 0
head_code (String.◌∷◌ c s) = code c

abbrev head_char : String → Char
head_char String.[] = char_at "." 0
head_char (String.◌∷◌ c s) = c

abbrev tail_of : String → String
tail_of String.[] = String.[]
tail_of (String.◌∷◌ c s) = s

marks : ¬ (◌≡◌ {A = ℕ} 46 120)
marks h = ground arith

print_text-injective : (s t q r : String) → print_text s q ≡ print_text t r → (s ≡ t) × (q ≡ r)
print_text-injective String.[] String.[] q r h = (refl, ap tail_of h)
print_text-injective String.[] (String.◌∷◌ d t) q r h = absurd (marks (ap head_code h))
print_text-injective (String.◌∷◌ c s) String.[] q r h = absurd (marks (sym (ap head_code h)))
print_text-injective (String.◌∷◌ c s) (String.◌∷◌ d t) q r h =
    let (e, k) = print_text-injective s t q r (ap (λ u. tail_of (tail_of u)) h) in
    (ap₂ (λ a u. String.◌∷◌ a u) (ap (λ u. head_char (tail_of u)) h) e, k)

print_text-some : (s q : String) → ¬ (print_text s q ≡ "")
print_text-some String.[] q h = cc
print_text-some (String.◌∷◌ c s) q h = cc

print-apart : (ss ts : List String) → print (texts ss) ≡ print (texts ts) → ss ≡ ts
print-apart [] [] h = refl
print-apart [] (t ∷ ts) h = absurd (print_text-some t (print (texts ts)) (sym h))
print-apart (s ∷ ss) [] h = absurd (print_text-some s (print (texts ss)) h)
print-apart (s ∷ ss) (t ∷ ts) h =
    let (e, k) = print_text-injective s t (print (texts ss)) (print (texts ts)) h in
    ap₂ ◌∷◌ e (print-apart ss ts k)

abbrev platform : Platform
platform = record { stringify = print; is_before = λ s t. true; is_instance = λ name e. true }

abbrev request : Value
request = obj plain (
    field "name" (str "Analyst") (
      field "description" null (
        field "priority" (int (pos 1)) (
          field "permissions" (arr (cons (str "audit.view") nil))
            (field "group_mappings" (arr nil) end)))))

abbrev role : Value
role = obj plain (
    field "id" (str "r1") (
      field "name" (str "Analyst") (
        field "description" null (
          field "priority" (int (pos 1)) (
            field "permissions" (arr (cons (str "audit.view") nil)) (
              field "group_mappings" (arr nil) (
                field "is_builtin" (bool false) (
                  field "connection_policy_count" (int (pos 0))
                    (field "connection_policies" (arr nil) end)))))))))

abbrev listing : Value → Value
listing roles = obj plain (field "roles" roles end)

abbrev failure : Value
failure = obj error end

creates :
    (create_role platform true
      (resolved (listing (arr nil)))
      (rejected failure)
      (resolved (listing (arr (cons role nil))))
      (λ id. resolved role)
      request).0
    ≡ saved role
unfolding create_role recovered_create committed_roles fetch_authoritative_role
    fetch_authoritative_roles normalize_role policy_count connection_policies normalize_policy
    is_ambiguous_network_failure role_matches_create role_matches_update
    role_could_be_created_candidate same_value canonicalize sort_values is_same
creates = refl

create_role-saved_example :
    (true ≡ true)
    × (((body : Value) × (◌≡◌ {A = Settled Value} (rejected failure) (resolved body))
          × (normalize_role body ≡ role))
        ⊎ ((e : Value) × (◌≡◌ {A = Settled Value} (rejected failure) (rejected e))
            × (is_ambiguous_network_failure platform e ≡ true)
            × (prior : List Value) × (roles : List Value) × (fetch_authoritative_roles
                  (resolved (listing (arr nil)))
                ≡ some prior)
            × (fetch_authoritative_roles (resolved (listing (arr (cons role nil)))) ≡ some roles)
            × IsCreated platform prior roles (λ id. resolved role) request role))
create_role-saved_example =
    create_role-saved platform true (resolved (listing (arr nil))) (rejected failure)
      (resolved (listing (arr (cons role nil)))) (λ id. resolved role) request role print-apart
      creates

updates : (update_role platform true (rejected failure) (resolved role) request).0 ≡ saved role
unfolding update_role fetch_authoritative_role normalize_role policy_count connection_policies
    normalize_policy is_ambiguous_network_failure role_matches_update same_value canonicalize
    sort_values is_same
updates = refl

update_role-saved_example :
    (true ≡ true)
    × (((body : Value) × (◌≡◌ {A = Settled Value} (rejected failure) (resolved body))
          × (normalize_role body ≡ role))
        ⊎ ((e : Value) × (◌≡◌ {A = Settled Value} (rejected failure) (rejected e))
            × (is_ambiguous_network_failure platform e ≡ true)
            × (fetch_authoritative_role (resolved role) ≡ some role)
            × IsAsked platform role request))
update_role-saved_example =
    update_role-saved platform true (rejected failure) (resolved role) request role print-apart
      updates
