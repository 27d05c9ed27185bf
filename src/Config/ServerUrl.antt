-- ===== src/Config/ServerUrl.antt =====
-- The server URLs that the configuration and the enrollment accept.
use mayfly_agent.Config.Validate.{invalid, check_scheme, check_http, validate_config_url, validate}
use mayfly_agent.Result.{reject_if, both_ok, err, ok}
use mayfly_agent.Errors.{invalid_server_url}
use mayfly_agent.Config.{Config}
use mayfly_agent.Text.Chars.{strip_prefix-eq, text_eq_iff, codes, text_eq, strip_prefix, Text}
use mayfly_agent.Crates.{Crates}
use mayfly_agent.Text.Trim.{trim}
use mayfly_agent.Float.{Floats}
use mayfly_agent.Identity.Enrollment.{validate_server_url}
use mayfly_agent.Prelude.{
  ◌≡◌, refl, sym, ◌⊎◌, inl, inr, Bool, true, false, not, Option, none, some, ◌++◌, arith,
  Option-cases, is_empty,
}

text_eq-swap : (s t : Text) → text_eq s t ≡ true → text_eq t s ≡ true
text_eq-swap s t h = (text_eq_iff t s).1 (sym ((text_eq_iff s t).0 h))

-- A host over https, which the enrollment takes too, or, with `allow_insecure_tls`, one over http,
-- which the enrollment refuses.
abbrev pub UrlCases : Text → Bool → Type 0
UrlCases url allow =
    ((host : Text) × (url ≡ codes "https://" ++ host)
      × (is_empty host ≡ false)
      × (validate_server_url url ≡ ok tt))
    ⊎ ((allow ≡ true)
        × ((host : Text) × (url ≡ codes "http://" ++ host)
            × (is_empty host ≡ false)
            × (validate_server_url url ≡ err invalid_server_url)))

http_case :
    (url : Text) (allow : Bool) (http : Option Text)
    → strip_prefix (codes "http://") url ≡ http
    → check_http allow http ≡ ok tt
    → (allow ≡ true) × ((host : Text) × (url ≡ codes "http://" ++ host) × (is_empty host ≡ false))
http_case url allow none s h = absurd (cc)
http_case url true (some host) s h =
    (refl, (host, strip_prefix-eq (codes "http://") url host s, ground arith))
http_case url false (some host) s h = absurd (cc)

scheme_cases :
    (url : Text) (allow : Bool)
    → text_eq url (trim url) ≡ true
    → check_scheme allow (strip_prefix (codes "https://") url) (strip_prefix (codes "http://") url)
      ≡ ok tt
    → UrlCases url allow
unfolding validate_server_url
scheme_cases url allow trimmed h = elim (Option-cases (strip_prefix (codes "https://") url)) [
  | inr (host, e) ↦
      let full : is_empty host ≡ false = ground arith in
      inl (
        host,
        strip_prefix-eq (codes "https://") url host e,
        full,
        rw (trimmed, e, full, validate_server_url) refl,
      )
  | inl e ↦
      let (allowed, (host, found, full)) =
        http_case url allow (strip_prefix (codes "http://") url) refl (ground arith) in
      inr (allowed, (host, found, full, rw (trimmed, e, validate_server_url) refl))
]

-- The URL of a configuration that passed validation names a host over https, and then the
-- enrollment takes it; or `allow_insecure_tls` is set and it names a host over http, and then the
-- enrollment refuses it as an invalid server URL.
pub validate-UrlCases :
    (fl : Floats) (lib : Crates) (config : Config fl)
    → validate fl lib config ≡ ok tt
    → UrlCases config.server_url config.allow_insecure_tls
unfolding validate validate_config_url
validate-UrlCases fl lib config h =
    let url = config.server_url in
    let ((_, checked), _) = both_ok (validate_config_url url config.allow_insecure_tls) _ h in
    let (_, h1) =
      both_ok (reject_if (is_empty (trim url)) (invalid "server_url must not be empty")) _
        checked in
    let (_, h2) =
      both_ok
        (reject_if (not (text_eq (trim url) url))
          (invalid "server_url must not have leading/trailing whitespace"))
        _ h1 in
    let trimmed : text_eq (trim url) url ≡ true = ground arith in
    scheme_cases url config.allow_insecure_tls (text_eq-swap (trim url) url trimmed) h2
