-- ===== src/Locale/Tests.antt =====
-- Tags of languages, and a choice in a page whose address asks for another language.
use query_craft.Common.{
  ◌≡◌, refl, sym, ◌∙◌, String, true, false, [], ◌∷◌, Option, none, some, includes_text, is_infix,
  is_prefix, codes_eq, trim, lower,
}
use Prim.Native.Nat.{ℕ, zero, suc}
use Prim.Native.String.{char_at}
use query_craft.Locale.{
  en, ar, rtl, Browser, normalize_app_language, folded, direction_for, read_query_language,
  resolve_initial_language,
}
use query_craft.Locale.Toggle.{change_start, change_end, active_language}
use query_craft.Locale.Laws.{resolve_initial_language-change_end}

regional : normalize_app_language (some "AR_eg ") ≡ some ar
unfolding normalize_app_language folded codes_eq is_prefix trim lower
regional = refl

unsupported : normalize_app_language (some "arabic") ≡ none
unfolding normalize_app_language folded codes_eq is_prefix trim lower
unsupported = refl

arabic_is_rtl : direction_for ar ≡ rtl
unfolding direction_for
arabic_is_rtl = refl

asks : change_start en ar ≡ (en, some en)
unfolding change_start
asks = refl

falls_back : active_language (some "fr") ≡ en
unfolding active_language normalize_app_language folded codes_eq is_prefix trim lower
falls_back = refl

-- Addresses that consist of the one parameter.
abbrev drop : ℕ → String → String
drop zero s = s
drop (suc n) String.[] = String.[]
drop (suc n) (String.◌∷◌ c s) = drop n s

abbrev get_param : String → String → Option String
get_param address key = some (drop 5 address)

abbrev set_param : String → String → String → String
set_param address key value = behind 5 value
  where
    behind : ℕ → String → String
    behind zero s = s
    behind (suc n) s = String.◌∷◌ (char_at "=gnl?" n) (behind n s)

abbrev page : Browser
page = record {
  search = "?lng=ar";
  storage = record { is_readable = true; is_writable = true; entries = [] };
  languages = "ar-EG" ∷ [];
  language = "ar";
  html_lang = "ar";
  html_dir = rtl;
}

includes_lng : includes_text page.search "lng=" ≡ true
unfolding includes_text is_infix is_prefix
includes_lng = refl

true_not_false : ¬ (true ≡ false)
true_not_false h = cc

names_nothing :
    includes_text page.search "lng=" ≡ false → read_query_language get_param page.search ≡ none
names_nothing e = absurd (true_not_false (sym includes_lng ∙ e))

resolve_initial_language-change_end_example :
    (resolve_initial_language get_param none none (change_end set_param en page)).0 ≡ en
resolve_initial_language-change_end_example =
    resolve_initial_language-change_end get_param set_param en page refl refl (λ s v. refl)
      names_nothing none
