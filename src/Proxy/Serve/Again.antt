-- ===== src/Proxy/Serve/Again.antt =====
-- A hit after a fill.
use package_firewall.Common.{ℕ, ◌≡◌, true, none}
use package_firewall.Common.Text.{Text}
use package_firewall.Common.Lists.{length}
use package_firewall.ArtifactCache.{Entry, PutRequest}
use package_firewall.Proxy.Spool.{Writer}
use package_firewall.Proxy.Load.{Staging}

-- A file that takes all that is written to it.
abbrev pub IsReliable : Writer → Type 0
IsReliable disk = (n : ℕ) (body : Text) → disk n body ≡ (length body, none)

-- The outside world of a hit that meets no error.
pub record Works (w : Staging) : Type 0 where
  pub reliable : IsReliable w.disk
  pub made : w.created ≡ true
  pub reset : w.rewound ≡ true
  pub shut : w.closed ≡ true

-- An entry that `serveAndStore` has stored, as the store returns it.
abbrev pub entry_of : PutRequest → Entry
entry_of req = record {
  headers = req.headers;
  body = req.body;
  sha256 = req.sha256;
  size = req.size;
  stored_at = req.stored_at;
  expires_at = req.expires_at;
}
