-- ===== src/ArtifactCache.antt =====
-- internal/artifactcache/cache.go: entries of the artifact cache and their validation. A body is a
-- list of reads. Times are nanoseconds, and 0 is the zero time. `Key` and `SafeHeaders` stand with
-- the keys and the headers of the proxy.
use package_firewall.Common.{
  ℕ, ◌||◌, Bool, true, false, not, Option, none, some, List, [], ltb, leb, ◌==◌, ◌&&◌,
  if◌then◌else◌,
}
use package_firewall.Common.Text.{Text, codes}
use package_firewall.Common.Lists.{length, any}
use package_firewall.Common.Decimal.{ℤ, pos, negsuc, is_digit}
use package_firewall.Proxy.Headers.{Headers}
use package_firewall.Proxy.Rewrite.{Read}

-- `Entry`; `body` is none where it is nil
pub record Entry : Type 0 where
  pub headers : Headers
  pub body : Option (List Read)
  pub sha256 : Text
  pub size : ℤ
  pub stored_at : ℕ
  pub expires_at : ℕ

-- `PutRequest`
pub record PutRequest : Type 0 where
  pub headers : Headers
  pub body : Option (List Read)
  pub sha256 : Text
  pub size : ℤ
  pub stored_at : ℕ
  pub expires_at : ℕ

-- `Expired`
abbrev pub expired : Entry → ℕ → Bool
expired e now = not (ltb now e.expires_at)

-- hex.DecodeString accepts this character.
abbrev pub is_hex : ℕ → Bool
is_hex c = is_digit c || (leb b'a' c && leb c b'f') || (leb b'A' c && leb c b'F')

-- `validSHA256`
unfoldable pub valid_sha256 : Text → Bool
valid_sha256 value = length value == 64 && not (any (λ c. not (is_hex c)) value)

abbrev pub is_negative : ℤ → Bool
is_negative (pos _) = false
is_negative (negsuc _) = true

-- `entry.Size > maximum`
abbrev pub exceeds : ℤ → ℕ → Bool
exceeds (pos n) maximum = ltb maximum n
exceeds (negsuc _) maximum = false

abbrev pub is_nil : Option (List Read) → Bool
is_nil none = true
is_nil (some _) = false

-- `ValidatePut`: what is wrong
unfoldable pub validate_put : PutRequest → Option Text
unfolding valid_sha256
validate_put req =
    if is_nil req.body
    then some (codes "body is required")
    else if is_negative req.size
    then some (codes "size cannot be negative")
    else if not (valid_sha256 req.sha256)
    then some (codes "sha256 must be a 64-character hexadecimal digest")
    else if req.stored_at == 0
    then some (codes "stored_at is required")
    else if req.expires_at == 0
    then some (codes "expires_at is required")
    else if not (ltb req.stored_at req.expires_at)
    then some (codes "expires_at must be after stored_at")
    else none

-- `ValidateEntry`
unfoldable pub validate_entry : Entry → Option Text
unfolding validate_put
validate_entry entry =
    if is_nil entry.body
    then some (codes "body is required")
    else validate_put (record {
      headers = [];
      body = entry.body;
      sha256 = entry.sha256;
      size = entry.size;
      stored_at = entry.stored_at;
      expires_at = entry.expires_at;
    })
