-- ===== src/Tests/Explain.antt =====
-- Header values and messages.
use package_firewall.Common.{◌≤◌, ◌≡◌, refl, arith}
use package_firewall.Common.Text.{codes}
use package_firewall.Common.Lists.{length, All}
use package_firewall.Policy.Types.{block, intel_error, plain}
use package_firewall.Explain
use package_firewall.Explain.{header_value, one_line, message, next_step}
use package_firewall.Explain.Header.{IsPrintable, header_value-IsPrintable}
use package_firewall.Tests.Policy.{left_pad}
use package_firewall.Tests.Intel.{show}

cut_value : header_value (codes "a\nbcdefgh") 7 ≡ codes "a bc..."
unfolding header_value
cut_value = refl

failed_lookup :
    (Explain.new show show left_pad
      (plain block (codes "intel error") intel_error)
      (codes "7")
      (codes "")).text
    ≡ codes
        "Blocked by Tidewaiter: the vulnerability lookup for lp@1.0 failed. Retry the install; the lookup fails closed while the vulnerability service is unavailable. Request ID: 7."
unfolding Explain.new
failed_lookup = refl

header_value-IsPrintable_example :
    (length (header_value (codes "a\nbcdefgh") 7) ≤ 7)
    × All IsPrintable (header_value (codes "a\nbcdefgh") 7)
    × (length (one_line (codes "a\nbcdefgh")) ≤ 7
        → All IsPrintable (one_line (codes "a\nbcdefgh"))
        → header_value (codes "a\nbcdefgh") 7 ≡ one_line (codes "a\nbcdefgh"))
header_value-IsPrintable_example = header_value-IsPrintable (codes "a\nbcdefgh") 7 (omega arith)
