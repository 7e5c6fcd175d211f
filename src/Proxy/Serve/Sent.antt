-- ===== src/Proxy/Serve/Sent.antt =====
-- What goes upstream of a client's headers.
use package_firewall.Common.{Bool, ◌&&◌, ◌||◌, List, [], ◌∷◌, ◌++◌, if◌then◌else◌}
use package_firewall.Common.Text.{Text, codes, text_eq, is_empty, to_lower}
use package_firewall.Common.Lists.{any}
use package_firewall.Proxy.Headers.{Headers, values}

-- The fields that are for one connection.
abbrev pub connection_fields : List Text
connection_fields =
    codes "connection"
    ∷ codes "keep-alive"
    ∷ codes "proxy-authenticate"
    ∷ codes "proxy-authorization"
    ∷ codes "te"
    ∷ codes "trailer"
    ∷ codes "transfer-encoding"
    ∷ codes "upgrade"
    ∷ []

-- The fields that say who the client is, to this proxy or to one before it.
abbrev pub credential_fields : List Text
credential_fields =
    codes "authorization"
    ∷ codes "proxy-authorization"
    ∷ codes "cookie"
    ∷ codes "cf-access-jwt-assertion"
    ∷ codes "cf-access-authenticated-user-email"
    ∷ codes "x-amzn-oidc-data"
    ∷ codes "x-amzn-oidc-accesstoken"
    ∷ codes "x-auth-request-access-token"
    ∷ codes "x-auth-request-email"
    ∷ codes "x-auth-request-user"
    ∷ codes "x-forwarded-access-token"
    ∷ codes "x-forwarded-email"
    ∷ codes "x-forwarded-user"
    ∷ []

abbrev pub is_withheld : Text → Bool
is_withheld name =
    any (text_eq (to_lower name)) connection_fields
    || any (text_eq (to_lower name)) credential_fields

-- The values that the registry gets for a name, of a client's headers and the route's own token.
abbrev pub expected : Text → Bool → Headers → Text → List Text
expected token plain header name =
    if text_eq (codes "Authorization") name
    then (if is_empty token then [] else (codes "Bearer " ++ token) ∷ [])
    else if plain && text_eq (codes "Accept-Encoding") name
    then codes "identity" ∷ []
    else if is_withheld name
    then []
    else values name header
