-- ===== src/Metadata/Tests.antt =====
-- The discovery document of the example.
use pg_oauth_validator.Example.{json, curl, discovery_document, issuer, key_url, metadata_policy}
use pg_oauth_validator.Metadata.Parse.{
  metadata_parse, parse_for, parse_document, check_members, check_uri, validate_url, validate_rest,
  validate_handle, valid_url_octets, parsed,
}
use pg_oauth_validator.Metadata.Sound.{Discovered, metadata_parse-Discovered}
use pg_oauth_validator.Url.Parts.{url_scheme, strip_proper, strip, authority, bad_octet, bad_handle}
use pg_oauth_validator.Base.{some, ◌≡◌, refl, bytes_eq}

metadata_parse_lem :
    metadata_parse json curl (some discovery_document) (some issuer) (some metadata_policy)
    ≡ parsed key_url
unfolding metadata_parse parse_for parse_document check_members check_uri validate_url validate_rest
    validate_handle valid_url_octets url_scheme strip_proper strip authority bad_octet bad_handle
    bytes_eq
metadata_parse_lem = refl

metadata_parse-Discovered_example :
    Discovered json curl discovery_document issuer metadata_policy key_url
metadata_parse-Discovered_example =
    metadata_parse-Discovered json curl discovery_document issuer metadata_policy metadata_parse_lem
