-- ===== src/Locale/Toggle.antt =====
-- frontend/src/components/common/LanguageToggle.tsx: the choice of a language. The translation library
-- changes its language in between: `change_start` comes before, `change_end` once it has.
use query_craft.Common.{String, Bool, true, false, Option, none, some, if◌then◌else◌, includes_text}
use query_craft.Locale.{
  Language, en, ar, tag, Browser, or_else, normalize_app_language, persist_language,
  apply_document_language,
}

abbrev pub is_language : Language → Language → Bool
is_language en en = true
is_language ar ar = true
is_language _ _ = false

-- `normalizeAppLanguage(i18n.resolvedLanguage ?? i18n.language) ?? 'en'`, at first and by `sync`.
unfoldable pub active_language : Option String → Language
unfolding normalize_app_language
active_language resolved = or_else (normalize_app_language resolved) en

-- `handleChange` up to the library's call: the language shown, and the one that is asked for.
unfoldable pub change_start : Language → Language → Language × Option Language
change_start next active = if is_language next active then (active, none) else (next, some next)

module _ (set_param : String → String → String → String) where
  abbrev coherent : Language → Browser → Browser
  coherent next b =
      if includes_text b.search "lng="
      then record b { search = set_param b.search "lng" (tag next) }
      else b

  -- The rest of `handleChange`.
  unfoldable pub change_end : Language → Browser → Browser
  change_end next b = coherent next (apply_document_language next (persist_language next b))
