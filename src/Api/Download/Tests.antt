-- ===== src/Api/Download/Tests.antt =====
-- Headers of downloads, with a platform that decodes every text to itself.
use query_craft.Common.{
  ℕ, ◌≡◌, refl, List, Option, none, some, codes, codes_eq, is_prefix, is_infix, is_space, trim,
  lower,
}
use query_craft.Api.Download.{
  csv, json, after_literal, after_digits, after_stamp, filename_pattern, ends_with, is_forbidden,
  has_forbidden_characters, is_acceptable_basename, extended_at, plain_at, quoted,
  is_line_terminator, is_attachment, is_refused, candidate, parse_audit_export_filename,
}
use query_craft.Api.Download.Laws.{HasShape, parse_audit_export_filename-HasShape}

abbrev decode : List ℕ → Option (List ℕ)
decode s = some s

abbrev name : List ℕ
name = codes "audit_export_20260511T100000Z.csv"

abbrev header : List ℕ
header = codes "Attachment; filename=\"audit_export_20260511T100000Z.csv\""

accepted : parse_audit_export_filename decode (some header) csv ≡ some name
unfolding parse_audit_export_filename candidate is_refused is_attachment extended_at plain_at quoted
    is_line_terminator is_acceptable_basename has_forbidden_characters is_forbidden filename_pattern
    after_stamp after_digits after_literal ends_with trim lower is_space codes_eq is_prefix is_infix
accepted = refl

other_format : parse_audit_export_filename decode (some header) json ≡ none
unfolding parse_audit_export_filename candidate is_refused is_attachment extended_at plain_at quoted
    is_line_terminator is_acceptable_basename has_forbidden_characters is_forbidden filename_pattern
    after_stamp after_digits after_literal ends_with trim lower is_space codes_eq is_prefix is_infix
other_format = refl

extended :
    parse_audit_export_filename decode
      (some (codes "attachment;filename*=utf-8'en'audit_export_20260511T100000Z.csv;x"))
      csv
    ≡ some name
unfolding parse_audit_export_filename candidate is_refused is_attachment extended_at plain_at quoted
    is_line_terminator is_acceptable_basename has_forbidden_characters is_forbidden filename_pattern
    after_stamp after_digits after_literal ends_with trim lower is_space codes_eq is_prefix is_infix
extended = refl

parse_audit_export_filename-HasShape_example : HasShape name csv
parse_audit_export_filename-HasShape_example =
    parse_audit_export_filename-HasShape decode (some header) csv name accepted
