-- ===== src/Policy/Engine/Rules.antt =====
-- The rules that `New` builds, and what the first match among them says about the configuration.
use mathlib.Core.List.{Memᴰ}
use mathlib.Core.List.Memᴰ
use package_firewall.Common.{
  ◌≡◌, refl, ap, inl, inr, true, false, some, List, [], ◌∷◌, ◌++◌, arith, Bool-cases, Option-cases,
}
use package_firewall.Common.Text.{Text, contains_any, codes}
use package_firewall.Common.Lists.{All, All-append}
use package_firewall.Policy.Types.{Action, allow, warn, block, Config}
use package_firewall.Policy.Glob.{Part, compile_glob, match_string}
use package_firewall.Policy.Glob.Meaning.{Matches, done, itself, one, leave, take}
use package_firewall.Policy.Engine.{EngineRule, compiled, new, merge_one, merge, first_match}

-- Where a rule comes from: it is the compiled form of a pattern of the list that its action names.
pub data Origin (cfg : Config) (rule : EngineRule) : Type 0 where
  denied : rule.action ≡ block → Memᴰ rule.pattern cfg.deny → Origin cfg rule
  allowed : rule.action ≡ allow → Memᴰ rule.pattern cfg.allow → Origin cfg rule
  warned : rule.action ≡ warn → Memᴰ rule.pattern cfg.warn → Origin cfg rule

abbrev IsCompiled : EngineRule → Type 0
IsCompiled rule = compile_glob rule.pattern ≡ some rule.re

abbrev FromList : Action → List Text → EngineRule → Type 0
FromList a patterns rule = IsCompiled rule × (rule.action ≡ a) × Memᴰ rule.pattern patterns

All-map {ℓ κ μ} :
    {A : Type ℓ} {P : A → Type κ} {Q : A → Type μ} (xs : List A)
    → ((a : A) → P a → Q a)
    → All P xs
    → All Q xs
All-map [] f h = tt
All-map (x ∷ xs) f (p, h) = (f x p, All-map xs f h)

compiled-FromList :
    (a : Action) (patterns : List Text) → All (FromList a patterns) (compiled a patterns)
unfolding compiled
compiled-FromList a [] = tt
compiled-FromList a (pattern ∷ patterns) =
    let rest : All (FromList a (pattern ∷ patterns)) (compiled a patterns) =
      All-map (compiled a patterns) (λ r (c, e, m). (c, e, Memᴰ.tail m))
        (compiled-FromList a patterns) in
    elim (Option-cases (compile_glob pattern)) [
      | inl bad ↦ rw (bad, compiled) rest
      | inr (re, good) ↦ rw (good, compiled) ((good, refl, Memᴰ.head refl), rest)
    ]

pub new-Origin : (cfg : Config) → All (λ r. IsCompiled r × Origin cfg r) (new cfg).0.rules
unfolding new
new-Origin cfg =
    All-append _ (compiled block cfg.deny) (compiled allow cfg.allow ++ compiled warn cfg.warn)
      (All-map _ (λ r (c, e, m). (c, denied e m)) (compiled-FromList block cfg.deny))
      (All-append _ (compiled allow cfg.allow) (compiled warn cfg.warn)
        (All-map _ (λ r (c, e, m). (c, allowed e m)) (compiled-FromList allow cfg.allow))
        (All-map _ (λ r (c, e, m). (c, warned e m)) (compiled-FromList warn cfg.warn)))

pub first_match_sound :
    (P : EngineRule → Type 0) (rules : List EngineRule) (purl : Text) (rule : EngineRule)
    → All P rules
    → first_match rules purl ≡ some rule
    → P rule × (match_string rule.re purl ≡ true)
unfolding first_match
first_match_sound P [] purl rule h e = cc
first_match_sound P (r ∷ rules) purl rule (p, h) e = elim (Bool-cases (match_string r.re purl)) [
  | inl hit ↦ let same : r ≡ rule = ground arith in (rw (← same) p, rw (← same) hit)
  | inr missed ↦ first_match_sound P rules purl rule h (ground arith)
]

-- A denied pattern that matches is found before any rule of another list.
pub first_match-compiled :
    (a : Action) (patterns : List Text) (rest : List EngineRule) (purl pattern : Text)
    (re : List Part)
    → Memᴰ pattern patterns
    → compile_glob pattern ≡ some re
    → match_string re purl ≡ true
    → (rule : EngineRule) × (first_match (compiled a patterns ++ rest) purl ≡ some rule)
      × (rule.action ≡ a)
      × Memᴰ rule.pattern patterns
unfolding first_match compiled
first_match-compiled a [] rest purl pattern re i c m = elim i [ ]
first_match-compiled a (p ∷ ps) rest purl pattern re (Memᴰ.head e) c m =
    rw (rw e at c, compiled)
      (record { action = a; pattern = p; re = re }, rw m refl, refl, Memᴰ.head refl)
first_match-compiled a (p ∷ ps) rest purl pattern re (Memᴰ.tail i) c m =
    let (rule, found, is_a, at) = first_match-compiled a ps rest purl pattern re i c m in
    elim (Option-cases (compile_glob p)) [
      | inl bad ↦ (rule, rw (bad, compiled) found, is_a, Memᴰ.tail at)
      | inr (re', good) ↦
          rw (good, compiled)
            (elim (Bool-cases (match_string re' purl)) [
              | inl hit ↦
                  (record { action = a; pattern = p; re = re' }, rw hit refl, refl, Memᴰ.head refl)
              | inr missed ↦ (rule, rw missed found, is_a, Memᴰ.tail at)
            ])
    ]

-- A pattern without `*` and `?` matches itself only.
pub Matches-literal :
    (pattern s : Text) → contains_any pattern (codes "*?") ≡ false → Matches pattern s → pattern ≡ s
unfolding contains_any
Matches-literal pattern s h done = refl
Matches-literal pattern s h (itself {c} n m d) =
    ap (λ t. c ∷ t) (Matches-literal _ _ (ground arith) d)
Matches-literal pattern s h (one e _ d) = ground arith
Matches-literal pattern s h (leave e d) = ground arith
Matches-literal pattern s h (take e _ d) = ground arith

deny-merge :
    (merged : Config) (cfgs : List Config) (pattern : Text)
    → Memᴰ pattern merged.deny
    → Memᴰ pattern (merge merged cfgs).deny
unfolding merge merge_one
deny-merge merged [] pattern m = m
deny-merge merged (c ∷ cfgs) pattern m =
    deny-merge (merge_one merged c) cfgs pattern (Memᴰ.append_left c.deny m)

pub Memᴰ-merge :
    (merged : Config) (cfgs : List Config) (cfg : Config) (pattern : Text)
    → Memᴰ cfg cfgs
    → Memᴰ pattern cfg.deny
    → Memᴰ pattern (merge merged cfgs).deny
unfolding merge merge_one
Memᴰ-merge merged [] cfg pattern i m = elim i [ ]
Memᴰ-merge merged (c ∷ cfgs) cfg pattern (Memᴰ.head e) m =
    deny-merge (merge_one merged c) cfgs pattern (Memᴰ.append_right merged.deny (rw e at m))
Memᴰ-merge merged (c ∷ cfgs) cfg pattern (Memᴰ.tail i) m =
    Memᴰ-merge (merge_one merged c) cfgs cfg pattern i m
