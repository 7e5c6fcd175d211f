-- ===== src/Tests/Registry.antt =====
-- Request paths and package URLs.
use package_firewall.Common.{◌≡◌, refl, false, some, []}
use package_firewall.Common.Text.{codes}
use package_firewall.Registry.Types.{Route}
use package_firewall.Registry.Purl.{path_unescape, purl_of}
use package_firewall.Registry.Pypi.{parse_pypi_file, normalize_pypi}
use package_firewall.Registry.Golang.{Versions, unescape_go_module}
use package_firewall.Registry.Identify.{identify, package_of, package_from_purl}
use package_firewall.Registry.Identify.Guards.{IsMetadata, identify-IsMetadata}
use package_firewall.Registry.Identify.RoundTrip.{
  escape_go_module, unescape_go_module-escape, IsPlain, package_from_purl-purl_of,
}

abbrev pub same_versions : Versions
same_versions = record { unescape_version = λ s. some s; canonical_version = λ s. s }

abbrev npm_route : Route
npm_route = record {
  name = codes "npm";
  ecosystem = codes "npm";
  path_prefix = codes "/npm/";
  upstream_url = codes "https://registry.npmjs.org";
  file_upstream_url = [];
  upstream_token_env = [];
}

scoped_purl :
    (identify same_versions npm_route (codes "/npm/@a/b/-/b-1.2.3-rc.1.tgz")).pkg.purl
    ≡ codes "pkg:npm/@a/b@1.2.3-rc.1"
unfolding identify path_unescape
scoped_purl = refl

wheel : parse_pypi_file (codes "a_b-1.0-py3.whl") ≡ (codes "a_b", codes "1.0")
unfolding parse_pypi_file
wheel = refl

normal : normalize_pypi (codes "A_.b-c") ≡ codes "a-b-c"
unfolding normalize_pypi
normal = refl

index : (identify same_versions npm_route (codes "/npm/b")).needs_decision ≡ false
unfolding identify
index = refl

identify-IsMetadata_example : IsMetadata (identify same_versions npm_route (codes "/npm/b"))
identify-IsMetadata_example = identify-IsMetadata same_versions npm_route (codes "/npm/b") index

unescape_go_module-escape_example :
    unescape_go_module (escape_go_module (codes "github.com/BurntSushi/toml"))
    ≡ codes "github.com/BurntSushi/toml"
unescape_go_module-escape_example =
    unescape_go_module-escape (codes "github.com/BurntSushi/toml") refl

IsPlain-name : IsPlain (codes "@a/b")
IsPlain-name = record { present = refl; no_hash = refl; no_query = refl; no_escape = refl }

IsPlain-version : IsPlain (codes "1.2.3")
IsPlain-version = record { present = refl; no_hash = refl; no_query = refl; no_escape = refl }

package_from_purl-purl_of_example :
    (package_from_purl (purl_of (codes "npm") (codes "@a/b") (codes "1.2.3"))
      ≡ some (package_of (codes "npm") (codes "@a/b") (codes "@a/b") (codes "1.2.3")))
    × (package_from_purl (purl_of (codes "go") (codes "@a/b") (codes "1.2.3"))
        ≡ some (package_of (codes "go") (codes "@a/b") (codes "@a/b") (codes "1.2.3")))
package_from_purl-purl_of_example =
    package_from_purl-purl_of (codes "@a/b") (codes "1.2.3") IsPlain-name IsPlain-version refl
