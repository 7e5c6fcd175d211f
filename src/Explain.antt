-- ===== src/Explain.antt =====
-- internal/explain/explain.go: the text that a client is shown about a decision, and the value of a
-- header made of it. `one_decimal` stands for the verb `%.1f`, and `rfc3339` for the format of times.
pub mod Header
use package_firewall.Common.{
  ℕ, ◌-◌, Bool, true, false, not, ◌&&◌, ◌||◌, Option, none, some, List, [], ◌∷◌, ◌++◌, map, ◌==◌,
  ltb, leb, if◌then◌else◌,
}
use package_firewall.Common.Text.{Text, codes, is_empty, is_space, join, trim_space}
use package_firewall.Common.Lists.{length, take}
use package_firewall.Common.Cut.{trim_suffix}
use package_firewall.Policy.Types.{
  Action, block, BlockKind, malware, vulnerability, policy_rule, cooldown, unknown_package,
  intel_error, unspecified, Advisory, Decision, Package, action_text, is_allow, is_block,
}

-- strings.Fields; the first argument is the field being read.
abbrev pub flush : Text → List Text → List Text
flush [] rest = rest
flush (c ∷ field) rest = (c ∷ field) ∷ rest

unfoldable pub fields_from : Text → Text → List Text
unfolding is_space
fields_from field [] = flush field []
fields_from field (c ∷ s) =
    let ended = fields_from [] s in
    let longer = fields_from (field ++ (c ∷ [])) s in
    if is_space c then flush field ended else longer

unfoldable pub one_line : Text → Text
unfolding fields_from join
one_line value = join (fields_from [] value) (codes " ")

unfoldable pub printable : ℕ → ℕ
printable r = if ltb r 0x20 || ltb 0x7e r then b'?' else r

-- `HeaderValue`
unfoldable pub header_value : Text → ℕ → Text
unfolding printable one_line
header_value value limit =
    let out = map printable (one_line value) in
    if ltb limit (length out) then take (limit - 3) out ++ codes "..." else out

-- `Explanation`, with the action and the kind of the decision as they are
pub record Explanation : Type 0 where
  pub blocked : Bool
  pub action : Action
  pub kind : BlockKind
  pub ecosystem : Text
  pub label : Text
  pub purl : Text
  pub reason : Text
  pub rule : Text
  pub about : Option Advisory
  pub allowed_after : Option ℕ
  pub next : Text
  pub exceptions_url : Text
  pub request_id : Text
  pub text : Text

-- `packageLabel`
unfoldable pub package_label : Package → Text
package_label pkg =
    if is_empty pkg.name
    then []
    else if is_empty pkg.version
    then pkg.name
    else pkg.name ++ (codes "@" ++ pkg.version)

-- `ruleName`
unfoldable pub rule_name : Action → Text
unfolding is_block
rule_name action = if is_block action then codes "deny" else action_text action

-- `summary`
unfoldable pub summary_of : Advisory → Text
unfolding one_line trim_suffix
summary_of a =
    let text = one_line a.summary in
    if is_empty text then [] else codes ": " ++ trim_suffix text (codes ".")

abbrev pub has_none {ℓ} : {A : Type ℓ} → List A → Bool
has_none [] = true
has_none (_ ∷ _) = false

-- `advisoryIDs`
unfoldable pub advisory_ids : Advisory → Text
unfolding join
advisory_ids a =
    if has_none a.aliases
    then a.id
    else a.id ++ (codes " (" ++ (join a.aliases (codes ", ") ++ codes ")"))

abbrev pub no_fix : Text
no_fix =
    codes
      "No fixed version is published; remove or replace the dependency, or request an exception."

-- The next step for a vulnerability.
unfoldable pub fix_step : Option Advisory → Text
unfolding join
fix_step none = no_fix
fix_step (some a) =
    if has_none a.fixed
    then no_fix
    else codes "Fixed in "
      ++ (join a.fixed (codes ", ")
          ++ codes
              "; upgrade to a fixed version (update the lockfile, or override the transitive dependency).")

-- `nextStep` of a decision that blocks
unfoldable pub step_for : BlockKind → Option Advisory → Text
unfolding fix_step
step_for malware a =
    codes "Remove the dependency and treat any machine that installed it as compromised."
step_for vulnerability a = fix_step a
step_for policy_rule a = codes "Use a different package or version, or request an exception."
step_for cooldown a = codes "Pin an earlier version until then."
step_for unknown_package a =
    codes "Check the request URL; request an exception if it is a legitimate artifact."
step_for intel_error a =
    codes
      "Retry the install; the lookup fails closed while the vulnerability service is unavailable."
step_for unspecified a = []

unfoldable pub next_step : Decision → Text
unfolding step_for is_block
next_step d = if is_block d.action then step_for d.kind d.advisory else []

module _ (one_decimal rfc3339 : ℕ → Text) where
  -- `finding` for a vulnerability
  unfoldable pub vulnerability_text : Bool → Advisory → Text → Text
  unfolding advisory_ids summary_of join
  vulnerability_text blocked a subject =
      let start = subject ++ (codes " has " ++ (advisory_ids a ++ codes ", severity ")) in
      let text =
        if ltb 0 a.threshold && leb a.threshold a.severity
        then start
          ++ (one_decimal a.severity
              ++ (codes " >= threshold "
                  ++ (one_decimal a.threshold ++ (summary_of a ++ codes "."))))
        else if blocked
        then start
          ++ (one_decimal a.severity
              ++ (summary_of a
                  ++ codes
                      "; the severity threshold does not block it, but the default vulnerability action does."))
        else start
          ++ (one_decimal a.severity
              ++ (codes " below threshold "
                  ++ (one_decimal a.threshold ++ (summary_of a ++ codes ".")))) in
      if has_none a.affected
      then text
      else text ++ (codes " Affected: " ++ (join a.affected (codes "; ") ++ codes "."))

  unfoldable pub cooldown_text : Text → Option ℕ → Text
  cooldown_text subject none =
      subject ++ codes " was published too recently for the release cooldown."
  cooldown_text subject (some t) =
      subject
      ++ (codes " was published too recently for the release cooldown; it is allowed after "
          ++ (rfc3339 t ++ codes "."))

  abbrev pub plain_finding : Explanation → Text → Text
  plain_finding e subject = subject ++ (codes ": " ++ (e.reason ++ codes "."))

  -- The `switch` of `finding`; without an advisory the two kinds that want one have no text of their
  -- own.
  unfoldable pub finding_by : BlockKind → Option Advisory → Explanation → Text → Text
  unfolding vulnerability_text cooldown_text rule_name advisory_ids summary_of
  finding_by malware (some a) e subject =
      subject
      ++ (codes " is a known malicious package ("
          ++ (advisory_ids a ++ (codes ")" ++ (summary_of a ++ codes "."))))
  finding_by malware none e subject = plain_finding e subject
  finding_by vulnerability (some a) e subject = vulnerability_text e.blocked a subject
  finding_by vulnerability none e subject = plain_finding e subject
  finding_by policy_rule a e subject =
      subject
      ++ (codes " matches " ++ (rule_name e.action ++ (codes " rule " ++ (e.rule ++ codes "."))))
  finding_by cooldown a e subject = cooldown_text subject e.allowed_after
  finding_by unknown_package a e subject =
      codes "the package and version could not be identified from the request path."
  finding_by intel_error a e subject =
      codes "the vulnerability lookup for " ++ (subject ++ codes " failed.")
  finding_by unspecified a e subject = plain_finding e subject

  abbrev pub details : Option Advisory → Text
  details none = []
  details (some a) = if is_empty a.url then [] else codes " Details: " ++ (a.url ++ codes ".")

  -- What `message` writes after the start of the sentence.
  unfoldable pub message_rest : Explanation → Text → Text
  unfolding finding_by
  message_rest e subject =
      finding_by e.kind e.about e subject
      ++ ((if is_empty e.next then [] else codes " " ++ e.next)
          ++ (details e.about
              ++ ((if is_empty e.request_id
                    then []
                    else codes " Request ID: " ++ (e.request_id ++ codes "."))
                  ++ (if e.blocked && not (is_empty e.exceptions_url)
                      then codes " Exceptions: " ++ e.exceptions_url
                      else []))))

  -- `message`
  unfoldable pub message : Explanation → Text
  unfolding message_rest is_allow trim_space action_text
  message e =
      let subject = if is_empty e.label then codes "this request" else e.label in
      if e.blocked
      then trim_space (codes "Blocked by Tidewaiter: " ++ message_rest e subject)
      else if is_allow e.action
      then codes "Tidewaiter allows " ++ (subject ++ (codes ": " ++ (e.reason ++ codes ".")))
      else trim_space (
          codes "Tidewaiter allows "
          ++ (subject
              ++ (codes " (action "
                  ++ (action_text e.action ++ (codes "): " ++ message_rest e subject)))))

  -- `New`
  unfoldable pub new : Package → Decision → Text → Text → Explanation
  unfolding message next_step package_label is_block
  new pkg d request_id exceptions_url =
      let e : Explanation = record {
        blocked = is_block d.action;
        action = d.action;
        kind = d.kind;
        ecosystem = pkg.ecosystem;
        label = package_label pkg;
        purl = pkg.purl;
        reason = d.reason;
        rule = d.matched_rule;
        about = d.advisory;
        allowed_after = if d.allowed_after == 0 then none else some d.allowed_after;
        next = next_step d;
        exceptions_url = exceptions_url;
        request_id = request_id;
        text = [];
      } in
      record e { text = message e }
