-- ===== src/Server/Decide/Cases.antt =====
-- The ways in which `decide` reaches its decision.
use package_firewall.Common.{ℕ, ◌≡◌, refl, inl, inr, false, Bool-cases}
use package_firewall.Common.Text.{Text, codes}
use package_firewall.Policy.Types.{allow, unspecified, plain}
use package_firewall.Policy.Engine.{Engine, evaluate}
use package_firewall.Registry.Types.{RequestInfo}
use package_firewall.Server.Decide.{
  Answer, found, failed, DecisionConfig, Lookups, lookup_failed, by_action, needs_publish_time,
  with_publish_time, decide_request,
}

module _ (one_decimal : ℕ → Text) (cfg : DecisionConfig) (lookups : Lookups)
    (info : RequestInfo) where
  pub data Cases (now later : ℕ) (e : Engine) : Type 0 where
    undecided :
        info.needs_decision ≡ false
        → decide_request one_decimal cfg lookups info now later e
          ≡ plain allow (codes "metadata request") unspecified
        → Cases now later e
    -- The first evaluation decides.
    first :
        decide_request one_decimal cfg lookups info now later e
          ≡ by_action one_decimal cfg lookups info
              (evaluate now e info.pkg).action
              (evaluate now e info.pkg)
        → Cases now later e
    -- The evaluation with the publish time decides.
    second :
        (published : ℕ)
        → lookups.published_at ≡ found published
        → decide_request one_decimal cfg lookups info now later e
          ≡ by_action one_decimal cfg lookups info
              (evaluate later e (record info.pkg { published_at = published })).action
              (evaluate later e (record info.pkg { published_at = published }))
        → Cases now later e
    -- The publish time is not found.
    undated :
        (error : Text)
        → lookups.published_at ≡ failed error
        → decide_request one_decimal cfg lookups info now later e
          ≡ lookup_failed cfg (codes "release date") error
        → Cases now later e

  dated :
      (now later : ℕ) (e : Engine) (p : Answer ℕ)
      → lookups.published_at ≡ p
      → decide_request one_decimal cfg lookups info now later e
        ≡ with_publish_time one_decimal cfg lookups info later e p
      → Cases now later e
  unfolding with_publish_time
  dated now later e (found published) q h = second published q h
  dated now later e (failed error) q h = undated error q h

  pub decide_request-Cases : (now later : ℕ) (e : Engine) → Cases now later e
  unfolding decide_request
  decide_request-Cases now later e = elim (Bool-cases info.needs_decision) [
    | inl needs ↦
        elim (Bool-cases
          (needs_publish_time one_decimal cfg lookups info e (evaluate now e info.pkg))) [
            | inl fetch ↦ dated now later e lookups.published_at refl (rw (needs, fetch))
            | inr keep ↦ first (rw (needs, keep))
          ]
    | inr skip ↦ undecided skip (rw skip)
  ]
