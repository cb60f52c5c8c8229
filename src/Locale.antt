-- ===== src/Locale.antt =====
-- frontend/src/i18n/locale.ts: the language of the page, kept on the device. The parsing of an address
-- and the change of one parameter in it belong to the platform and are parameters. There is a window
-- and a document.
pub mod Toggle
pub mod Laws
mod Tests
use query_craft.Common.{
  ℕ, String, Bool, true, false, List, [], ◌∷◌, ◌++◌, map, Option, none, some, ◌==◌, if◌then◌else◌,
  ◌||◌,
}
use query_craft.Common.Strings.{codes, trim, lower, codes_eq, is_prefix, lookup, insert}

-- `AppLanguage`.
pub data Language : Type 0 where
  en ar : Language

abbrev pub tag : Language → String
tag en = "en"
tag ar = "ar"

pub data Direction : Type 0 where
  ltr rtl : Direction

unfoldable pub language_storage_key : String
language_storage_key = "querycraft.language"

-- `value.trim().toLowerCase().replace(/_/g, '-')` for a text that is then compared with ASCII literals.
unfoldable pub folded : String → List ℕ
folded value = map (λ c. if lower c == b'_' then b'-' else lower c) (trim (codes value))

abbrev names : List ℕ → String → String → Bool
names s whole region = codes_eq s (codes whole) || is_prefix (codes region) s

unfoldable pub normalize_app_language : Option String → Option Language
unfolding folded
normalize_app_language none = none
normalize_app_language (some value) =
    if names (folded value) "en" "en-"
    then some en
    else if names (folded value) "ar" "ar-"
    then some ar
    else none

unfoldable pub direction_for : Language → Direction
direction_for en = ltr
direction_for ar = rtl

-- The storage of the device. Without leave to read, or where there is none, it gives nothing; without
-- leave to write it takes nothing.
pub record Storage : Type 0 where
  pub is_readable : Bool
  pub is_writable : Bool
  pub entries : List (String × String)

pub record Browser : Type 0 where
  pub search : String
  pub storage : Storage
  pub languages : List String
  pub language : String
  pub html_lang : String
  pub html_dir : Direction

unfoldable pub safe_get : Storage → String → Option String
safe_get s key = if s.is_readable then lookup key s.entries else none

unfoldable pub safe_set : Storage → String → String → Storage
safe_set s key value =
    if s.is_writable then record s { entries = insert key value s.entries } else s

unfoldable pub read_stored_language : Browser → Option Language
read_stored_language b = normalize_app_language (safe_get b.storage language_storage_key)

unfoldable pub persist_language : Language → Browser → Browser
persist_language language b = record b {
  storage = safe_set b.storage language_storage_key (tag language);
}

unfoldable pub apply_document_language : Language → Browser → Browser
unfolding direction_for
apply_document_language language b = record b {
  html_lang = tag language;
  html_dir = direction_for language;
}

abbrev pub or_else {ℓ} : {A : Type ℓ} → Option A → A → A
or_else none a = a
or_else (some b) a = b

-- The loop over the candidates.
unfoldable pub first_language : List String → Option Language
first_language [] = none
first_language (candidate ∷ candidates) =
    let rest = first_language candidates in
    elim (normalize_app_language (some candidate)) [ none ↦ rest | some language ↦ some language ]

module _ (get_param : String → String → Option String) where
  unfoldable pub read_query_language : String → Option Language
  read_query_language search = normalize_app_language (get_param search "lng")

  -- The options are the languages of the navigator and the address to use instead of the browser's.
  unfoldable pub resolve_initial_language :
      Option (List String) → Option String → Browser → Language × Browser
  resolve_initial_language navigator_languages search b =
      elim (read_query_language (or_else search b.search)) [
        | some query ↦ (query, persist_language query b)
        | none ↦ elim (read_stored_language b) [
          | some stored ↦ (stored, b)
          | none ↦
              elim (first_language (or_else navigator_languages (b.languages ++ b.language ∷ []))) [
                | some navigator ↦ (navigator, b)
                | none ↦ (or_else (normalize_app_language (some b.html_lang)) en, b)
              ]
        ]
      ]
