-- ===== src/Proxy/Headers.antt =====
-- internal/proxy/proxy.go: the headers that are passed on, and internal/artifactcache/cache.go:
-- those that are stored. The fields of an http.Header stand in a list in the order in which they
-- were added, and their names are canonical, as package net/http keeps them; a name of http.Header
-- without values is no field.
pub mod Passed
use package_firewall.Common.{Bool, true, false, not, ◌||◌, List, [], ◌∷◌, ◌++◌, if◌then◌else◌}
use package_firewall.Common.Text.{Text, codes, text_eq, to_lower, equal_fold}
use package_firewall.Common.Lists.{any}

abbrev pub Headers : Type 0
Headers = List (Text × Text)

-- http.Header.Values
unfoldable pub values : Text → Headers → List Text
values k [] = []
values k ((j, v) ∷ h) = if text_eq j k then v ∷ values k h else values k h

abbrev pub first_or_empty : List Text → Text
first_or_empty [] = []
first_or_empty (v ∷ _) = v

-- http.Header.Get
unfoldable pub get : Text → Headers → Text
unfolding values
get k h = first_or_empty (values k h)

-- http.Header.Del
unfoldable pub del : Text → Headers → Headers
del k [] = []
del k ((j, v) ∷ h) = if text_eq j k then del k h else (j, v) ∷ del k h

-- http.Header.Add
unfoldable pub add : Text → Text → Headers → Headers
add k v h = h ++ ((k, v) ∷ [])

-- http.Header.Set
unfoldable pub set : Text → Text → Headers → Headers
unfolding del add
set k v h = add k v (del k h)

-- A switch over the lower-case form of a name.
unfoldable pub is_one_of : List Text → Text → Bool
is_one_of names header = any (text_eq (to_lower header)) names

-- `hopByHop`
unfoldable pub hop_by_hop : Text → Bool
unfolding is_one_of
hop_by_hop header =
    is_one_of
      (codes "connection"
        ∷ codes "keep-alive"
        ∷ codes "proxy-authenticate"
        ∷ codes "proxy-authorization"
        ∷ codes "te"
        ∷ codes "trailer"
        ∷ codes "transfer-encoding"
        ∷ codes "upgrade"
        ∷ [])
      header

-- `sensitiveRequestHeader`
unfoldable pub sensitive_request_header : Text → Bool
unfolding is_one_of
sensitive_request_header header =
    is_one_of
      (codes "authorization"
        ∷ codes "proxy-authorization"
        ∷ codes "cookie"
        ∷ codes "cf-access-jwt-assertion"
        ∷ codes "cf-access-authenticated-user-email"
        ∷ codes "x-amzn-oidc-data"
        ∷ codes "x-amzn-oidc-accesstoken"
        ∷ codes "x-auth-request-access-token"
        ∷ codes "x-auth-request-email"
        ∷ codes "x-auth-request-user"
        ∷ codes "x-forwarded-access-token"
        ∷ codes "x-forwarded-email"
        ∷ codes "x-forwarded-user"
        ∷ [])
      header

-- `copyHeaders`; the loops over the keys and over a key's values are one loop over the fields
unfoldable pub copy_headers : (Text → Bool) → Headers → Headers → Headers
unfolding add
copy_headers skip dst [] = dst
copy_headers skip dst ((k, v) ∷ src) =
    copy_headers skip (if hop_by_hop k || skip k then dst else add k v dst) src

-- `copyRequestHeaders`
unfoldable pub copy_request_headers : Headers → Headers → Headers
copy_request_headers dst src = copy_headers sensitive_request_header dst src

abbrev pub cache_header : Text
cache_header = codes "X-Package-Firewall-Cache"

-- `copyResponseHeaders`
unfoldable pub copy_response_headers : Headers → Headers → Headers
copy_response_headers dst src = copy_headers (λ header. equal_fold header cache_header) dst src

-- The switch of `SafeHeaders`
unfoldable pub is_safe : Text → Bool
is_safe key =
    is_one_of
      (codes "age"
        ∷ codes "cache-control"
        ∷ codes "content-disposition"
        ∷ codes "content-type"
        ∷ codes "date"
        ∷ codes "digest"
        ∷ codes "etag"
        ∷ codes "last-modified"
        ∷ codes "vary"
        ∷ [])
      key

-- `SafeHeaders`
unfoldable pub safe_headers : Headers → Headers
safe_headers [] = []
safe_headers ((k, v) ∷ h) = if is_safe k then (k, v) ∷ safe_headers h else safe_headers h
