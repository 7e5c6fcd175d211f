-- ===== src/Registry/Types.antt =====
-- internal/registry/registry.go: routes and the description of a request.
use package_firewall.Common.{Bool}
use package_firewall.Common.Text.{Text}
use package_firewall.Policy.Types.{Package}

pub record Route : Type 0 where
  pub name : Text
  pub ecosystem : Text
  pub path_prefix : Text
  pub upstream_url : Text
  pub file_upstream_url : Text
  pub upstream_token_env : Text

pub record RequestInfo : Type 0 where
  pub pkg : Package
  pub kind : Text
  pub upstream_path : Text
  pub file_upstream : Bool
  pub needs_decision : Bool
  pub cacheable : Bool
  pub skip_vulnerability_check : Bool
