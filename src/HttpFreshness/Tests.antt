-- ===== src/HttpFreshness/Tests.antt =====
-- A response whose headers forbid to use it unvalidated.
use pg_oauth_validator.HttpFreshness.Decimal.{decimal_lem}
use pg_oauth_validator.HttpFreshness.Bounds.{Obeys, calculate-Obeys}
use pg_oauth_validator.HttpFreshness.Headers.{
  parse_cache_control, decimal, control_entries, control_entry, directive, directive_name, max_age,
  unquote, decimal_from, last_is, without_last, parse_age,
}
use pg_oauth_validator.Base.{
  Bytes, some, pos, ℤ, text, none, true, ◌≡◌, refl, trim, skip, skip_back, before, behind,
  entries_of, eq_ignore_case, lower, is_blank, bytes_eq,
}
use pg_oauth_validator.HttpFreshness.Calculate.{
  Headers, Policy, calculate, limits, calculate_headers, calculate_parsed, stated_freshness,
  apparent_age, freshness_of, remaining_ms, seconds_to_milliseconds,
}

abbrev getdate : Bytes → ℤ
getdate d = pos 1000

abbrev revalidated : Headers
revalidated = record {
  cache_control = some (text "max-age=60, no-cache");
  date = none;
  expires = none;
  age = some (text "5");
}

abbrev policy : Policy
policy = record { default_ttl_ms = pos 300000; maximum_ttl_ms = pos 3600000 }

calculate-Obeys_example : Obeys revalidated.cache_control 3600000 (record {
  ttl_ms = 0;
  cacheable = true;
  revalidation_required = true;
  explicit_freshness = true;
})
unfolding parse_cache_control control_entries control_entry directive directive_name max_age unquote
    decimal decimal_from trim skip skip_back before behind entries_of last_is without_last
    eq_ignore_case lower is_blank calculate limits calculate_headers parse_age calculate_parsed
    stated_freshness apparent_age freshness_of remaining_ms seconds_to_milliseconds bytes_eq
calculate-Obeys_example = calculate-Obeys getdate revalidated (pos 1000) policy refl

decimal_lem_example : decimal (text "9223372036854775808") ≡ none
decimal_lem_example = decimal_lem (text "9223372036854775808")
