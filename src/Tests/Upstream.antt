-- ===== src/Tests/Upstream.antt =====
-- A registry that is busy once, and two requests for one file.
use package_firewall.Common.{ℕ, zero, ◌≡◌, ◌⊎◌, ◌*◌, refl, true, false, some, none, [], ◌∷◌}
use package_firewall.Common.Text.{Text, codes, text_eq}
use package_firewall.Common.Decimal.{negsuc, parse_int, parse_uint}
use package_firewall.Proxy.Headers.{values, get}
use package_firewall.Proxy.Response.{Response, second}
use package_firewall.Proxy.Store.{UpstreamRequest}
use package_firewall.Proxy.Upstream.{
  Protection, Attempt, acquired, answered, response, Done, do_request, do_from, cool_down,
  send_request, take_answer, limited, delay_after, retryable_request, retry_after_delay,
  later_cooldown,
}
use package_firewall.Proxy.Upstream.Attempts.{Bounded, taken, waited, do_request-Bounded}
use package_firewall.Proxy.Fill.{FillGroup, begin}
use package_firewall.Proxy.Fill.Requests.{
  Fills, Reached, at_start, led, joined, empty_fills, at_request, is_closed, HasLeader,
}
use package_firewall.Proxy.Fill.Single.{Reached-leads}
use package_firewall.Tests.Proxy.{http}

abbrev index_page : UpstreamRequest
index_page = record {
  method = codes "GET";
  target = codes "https://a/n";
  header = [];
  has_body = false;
}

abbrev one_retry : Protection
one_retry = record { rate_limit_retries = 1; max_retry_after = 30 * second }

abbrev reply : ℕ → Response
reply status = record {
  status_code = status;
  header = (codes "Retry-After", codes "2") ∷ [];
  answered = none;
  uncompressed = false;
  content_length = negsuc 0;
  body = [];
}

abbrev status_at : ℕ → ℕ
status_at zero = 429
status_at _ = 200

abbrev busy_once : ℕ → Attempt
busy_once attempt = record {
  remote = none;
  now = 10 * second * attempt;
  cooled = none;
  slot = acquired;
  answer = answered (reply (status_at attempt));
  received_at = 0;
  set_at = 0;
  jitter = (λ maximum. 0);
  paused = none;
}

abbrev fetched : Done
fetched = do_request http one_retry index_page busy_once 0

retried :
    (taken fetched.steps ≡ 2)
    × (waited fetched.steps ≡ 2 * second)
    × (fetched.result ≡ response (reply 200))
unfolding taken waited do_request do_from cool_down send_request take_answer limited delay_after
    retryable_request retry_after_delay later_cooldown parse_int parse_uint values get text_eq
retried = (refl, refl, refl)

do_request-Bounded_example : Bounded (30 * second) 2 fetched
do_request-Bounded_example = do_request-Bounded http one_retry index_page busy_once 0

abbrev file : Text
file = codes "f"

abbrev led_group : FillGroup
led_group = record { calls = (file, 0) ∷ []; next = 1; closed = [] }

first_begins : begin file empty_fills.group ≡ ((0, true), led_group)
unfolding begin
first_begins = refl

second_begins : begin file led_group ≡ ((0, false), led_group)
unfolding begin text_eq
second_begins = refl

-- Request 0 leads, and request 1 waits.
abbrev both : Fills
both = record {
  group = led_group;
  leads = at_request 0 (some (file, 0)) empty_fills.leads;
  waits = at_request 1 (some (file, 0)) empty_fills.waits;
}

two_requests : Reached both
two_requests =
    joined 1 file 0 led_group (led 0 file 0 led_group at_start refl refl first_begins) refl refl
      second_begins

Reached-leads_example :
    ◌≡◌ {A = ℕ} 0 0
    × ◌≡◌ {A = ℕ} 0 0
    × (HasLeader both.leads file 0 ⊎ (is_closed both.group 0 ≡ true))
Reached-leads_example = Reached-leads 0 0 1 file 0 0 file 0 two_requests refl refl refl
