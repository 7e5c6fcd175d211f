-- ===== src/Tests/Proxy.antt =====
-- A jar that is fetched, stored and loaded.
use mathlib.Core.Path.{◌≡◌, refl}
use package_firewall.Common.{
  ◌⊎◌, inl, inr, ℕ, zero, suc, ◌++◌, ◌≤◌, true, false, Option, none, some, List, [], ◌∷◌,
}
use package_firewall.Common.Text.{Text, codes, text_eq, join, to_lower, equal_fold, trim_space}
use package_firewall.Common.Lists.{length, All}
use package_firewall.Common.Decimal.{pos}
use package_firewall.Common.Cut.{cut, cut_prefix, trim_right}
use package_firewall.Registry.Types.{RequestInfo}
use package_firewall.Server.Handle.{RouteConfig}
use package_firewall.ArtifactCache.{PutRequest, Entry, valid_sha256, validate_put, validate_entry}
use package_firewall.Proxy.Headers.{values, get, safe_headers, is_one_of, is_safe}
use package_firewall.Proxy.Cacheable.{
  is_set, has_conditional_header, request_disables_caching, cacheable_request_representation,
  identity_encoding_accepted,
}
use package_firewall.Proxy.CacheKey.{
  ClientRequest, bypass_reason, cache_key, components, key, redirect_policy_fingerprint,
}
use package_firewall.Proxy.CacheKey.Separate.{
  NoZero, Alike, Collides, hashed, short_hash, policy_text, cache_key-separates,
}
use package_firewall.Proxy.Redirect.{
  Url, Urls, Check, upstream_redirect_policy, check_redirect, check_origins, allowed_set,
  request_origin, normalize_http_origin, origin_of_url, port_of,
}
use package_firewall.Proxy.Redirect.Trust.{start, hop, IsTrusted, Followed-IsTrusted}
use package_firewall.Proxy.Rewrite.{Read, more, last}
use package_firewall.Proxy.Spool.{
  Writer, new_capture_spool, stream_and_capture, stream_from, pass_on, capture, after_write,
  write_error, or_stop,
}
use package_firewall.Proxy.Spool.Capture.{Kept, stream_and_capture-Kept}
use package_firewall.Proxy.Load.{
  found, LoadError, not_found, StagedEntry, Staging, load_cached, load_entry, check_copy,
  copy_bounded, copy_chunk, write_part, write_all, limit,
}
use package_firewall.Proxy.Load.Verified.{Verified, load_cached-Verified}
use package_firewall.Proxy.Response.{Response, Http}
use package_firewall.Proxy.Paths.{upstream_url}
use package_firewall.Proxy.Store.{Settings, World}
use package_firewall.Proxy.Serve.Stored.{Stored}
use package_firewall.Proxy.Serve.Again.{Works}

abbrev no_url : Url
no_url = record {
  scheme = [];
  opaque = [];
  user = false;
  host = [];
  path = [];
  raw_path = [];
  raw_query = [];
  force_query = false;
  fragment = [];
}

abbrev with_host : Option (Text × Text) → Url
with_host none = no_url
with_host (some (host, path)) = record no_url {
  scheme = codes "https";
  host = host;
  path = codes "/" ++ path;
}

-- URLs of the form https://host/path
abbrev parse_https : Text → Option Url
parse_https value = elim (cut_prefix value (codes "https://")) [
  | none ↦ none
  | some rest ↦ some (with_host (cut (rest ++ codes "/") (codes "/")))
]

abbrev urls : Urls
urls = record {
  parse = parse_https;
  parse_request_uri = parse_https;
  print = (λ url. url.scheme ++ (codes "://" ++ (url.host ++ trim_right b'/' url.path)));
  hostname = (λ url. url.host);
  port = (λ url. []);
  join_host_port = (λ host port. host ++ (codes ":" ++ port));
}

abbrev pub http : Http
http = record {
  parse_time = (λ value. none);
  format_time = (λ at. codes "now");
  parse_set_cookie = (λ value. none);
}

abbrev same : Text → Text
same s = s

abbrev unsorted : List Text → List Text
unsorted xs = xs

abbrev maven : RouteConfig
maven = record {
  name = codes "m";
  ecosystem = codes "maven";
  path_prefix = codes "/m/";
  upstream_url = codes "https://a";
  file_upstream_url = [];
  upstream_token_env = [];
  enforce_redirect_origins = true;
  allowed_redirect_origins = codes "https://b" ∷ [];
  allow_anonymous = false;
}

abbrev jar : RequestInfo
jar = record {
  pkg = record {
    ecosystem = codes "maven";
    name = codes "n";
    version = codes "1";
    purl = codes "pkg:maven/n@1";
    published_at = 0;
  };
  kind = codes "artifact";
  upstream_path = codes "/n";
  file_upstream = false;
  needs_decision = true;
  cacheable = true;
  skip_vulnerability_check = false;
}

abbrev plain_get : ClientRequest
plain_get = record {
  method = codes "GET";
  raw_query = [];
  force_query = false;
  header = (codes "Cookie2", codes "x") ∷ [];
  has_body = false;
}

abbrev reliable : Writer
reliable n body = (length body, none)

abbrev chunks : List Read
chunks = more (codes "ab") ∷ last (codes "c") ∷ []

abbrev jar_response : Response
jar_response = record {
  status_code = 200;
  header = (codes "Etag", codes "e") ∷ [];
  answered = none;
  uncompressed = false;
  content_length = pos 3;
  body = chunks;
}

abbrev settings : Settings
settings = record {
  base_url = codes "http://fw";
  has_store = true;
  maximum = 4;
  artifact_ttl = 100;
  lookup_env = (λ name. []);
}

abbrev world : World
world = record {
  exchange = (λ request. inr jar_response);
  requested_at = 1;
  received_at = 2;
  stored_at = 3;
  created = true;
  rewound = true;
  disk = reliable;
  client = reliable;
}

-- A hash of 64 characters.
abbrev zeros : ℕ → Text
zeros zero = []
zeros (suc n) = codes "0" ++ zeros n

abbrev checksum : Text → Text
checksum _ = zeros 64

abbrev nothing_cached : Text → LoadError ⊎ StagedEntry
nothing_cached key = inl not_found

abbrev target : Text
target = codes "https://a/n"

abbrev address : Text
address = key same (components urls same unsorted maven target)

abbrev stored_address : Text
stored_address = key checksum (components urls checksum unsorted maven target)

abbrev entry : PutRequest
entry = record {
  headers = (codes "Etag", codes "e") ∷ (codes "Date", codes "now") ∷ [];
  body = some (last (codes "abc") ∷ []);
  sha256 = zeros 64;
  size = pos 3;
  stored_at = 3;
  expires_at = 103;
}

-- The entry as the store returns it.
abbrev cached : Entry
cached = record {
  headers = (codes "Etag", codes "e") ∷ [];
  body = some chunks;
  sha256 = zeros 64;
  size = pos 3;
  stored_at = 3;
  expires_at = 103;
}

abbrev staging : Staging
staging = record {
  now = 5;
  later = 6;
  created = true;
  rewound = true;
  disk = reliable;
  closed = true;
}

abbrev staged : StagedEntry
staged = record {
  content = codes "abc";
  headers = (codes "Etag", codes "e") ∷ [];
  size = 3;
  stored_at = 3;
}

jar_loaded : load_cached checksum 4 staging (found cached) ≡ inr staged
unfolding load_cached load_entry check_copy copy_bounded copy_chunk write_part write_all limit
    validate_entry validate_put valid_sha256 equal_fold safe_headers is_safe is_one_of text_eq
    to_lower
jar_loaded = refl

load_cached-Verified_example :
    (e : Entry) × (found cached ≡ found e) × Verified checksum 4 staging e staged
load_cached-Verified_example =
    load_cached-Verified checksum 4 staging (found cached) staged jar_loaded

-- A spool that is one byte too small.
spool_sound : (stream_and_capture reliable reliable (new_capture_spool 2) chunks).spool.error ≡ none
unfolding stream_from pass_on capture after_write write_error or_stop
spool_sound = refl

stream_and_capture-Kept_example :
    Kept 2
      (stream_and_capture reliable reliable (new_capture_spool 2) chunks).spool
      (stream_and_capture reliable reliable (new_capture_spool 2) chunks).delivered
stream_and_capture-Kept_example = stream_and_capture-Kept reliable reliable 2 chunks spool_sound

abbrev at_host : Text → Option Url
at_host host = some (with_host (some (host, [])))

abbrev trust_b : Check
trust_b = check_redirect urls true (codes "https://b:443" ∷ [])

policy : upstream_redirect_policy urls true (codes "https://b" ∷ []) ≡ some trust_b
unfolding upstream_redirect_policy allowed_set normalize_http_origin origin_of_url port_of
    cut_prefix trim_space text_eq to_lower cut
policy = refl

trusted_hop : trust_b (at_host (codes "b")) (at_host (codes "a") ∷ []) ≡ none
unfolding check_redirect check_origins request_origin normalize_http_origin origin_of_url port_of
    cut_prefix trim_space text_eq to_lower cut trim_right
trusted_hop = refl

Followed-IsTrusted_example :
    (length (at_host (codes "a") ∷ at_host (codes "b") ∷ []) ≤ 10)
    × All
        (IsTrusted urls true (codes "https://b" ∷ []) (at_host (codes "a")))
        (at_host (codes "a") ∷ at_host (codes "b") ∷ [])
Followed-IsTrusted_example =
    Followed-IsTrusted urls true (codes "https://b" ∷ []) trust_b (at_host (codes "a"))
      (at_host (codes "b") ∷ []) policy
      (hop (at_host (codes "b")) (start (at_host (codes "a"))) trusted_hop)

jar_keyed : cache_key urls same unsorted true plain_get maven jar target ≡ inr address
unfolding cache_key bypass_reason is_set has_conditional_header request_disables_caching
    cacheable_request_representation identity_encoding_accepted values get text_eq trim_space join
jar_keyed = refl

plain_components : All NoZero (components urls same unsorted maven target)
unfolding components redirect_policy_fingerprint text_eq normalize_http_origin origin_of_url port_of
    cut_prefix trim_space to_lower cut join
plain_components = (refl, (refl, (refl, (refl, (refl, (refl, (refl, tt)))))))

cache_key-separates_example :
    Alike urls same unsorted maven target maven target
    ⊎ (Collides same
          (hashed (components urls same unsorted maven target))
          (hashed (components urls same unsorted maven target))
        ⊎ Collides
            (short_hash urls same unsorted)
            (policy_text urls same unsorted maven)
            (policy_text urls same unsorted maven))
cache_key-separates_example =
    cache_key-separates urls same unsorted true plain_get plain_get maven maven jar jar target
      target address plain_components plain_components jar_keyed jar_keyed

-- A request with a cookie, for a route with a token.
abbrev with_cookie : ClientRequest
with_cookie = record plain_get {
  header = (codes "Cookie", codes "x") ∷ (codes "Authorization", codes "Bearer t") ∷ [];
}

abbrev with_own_token : RouteConfig
with_own_token = record maven { upstream_token_env = codes "T" }

abbrev works : Works staging
works = record { reliable = (λ n body. refl); made = refl; reset = refl; shut = refl }
