-- ===== src/Proxy/Upstream.antt =====
-- internal/proxy/upstream.go: the requests to one registry, with their retries and cooldowns. Times
-- are nanoseconds. The answers of the outside world in each round of the loop are arguments: the
-- shared cooldown, the clock, the queue for a slot, the registry and the waits. The cooldown of the
-- registry is the state; that of other registries is another entry of the same map.
pub mod Attempts
use package_firewall.Common.{
  ℕ, zero, suc, ◌+◌, ◌-◌, ◌*◌, ◌/◌, ◌^◌, min, max, Bool, true, false, not, ◌&&◌, ◌||◌, Option, none,
  some, List, [], ◌∷◌, ◌++◌, ltb, leb, ◌==◌, if◌then◌else◌,
}
use package_firewall.Common.Text.{Text, codes, text_eq, is_empty, trim_space, to_lower}
use package_firewall.Common.Decimal.{ℤ, pos, negsuc, parse_int, format_decimal}
use package_firewall.Proxy.Headers.{Headers, get, set}
use package_firewall.Proxy.Redirect.{Url, Urls, normalize_http_origin}
use package_firewall.Proxy.Response.{Response, Http, second}
use package_firewall.Proxy.Store.{UpstreamRequest}

-- `UpstreamProtectionConfig`, the fields that the loop reads
pub record Protection : Type 0 where
  pub rate_limit_retries : ℕ
  pub max_retry_after : ℕ

abbrev pub millisecond : ℕ
millisecond = 1000000

abbrev parsed_delay : Http → Text → ℕ → Option ℤ → Option ℕ
parsed_delay http value now (some (pos seconds)) = some (seconds * second)
parsed_delay http value now (some (negsuc _)) = none
parsed_delay http value now none = elim (http.parse_time value) [
  | none ↦ none
  | some at ↦ some (at - now)
]

-- `retryAfterDelay`; `none` where it is not valid
unfoldable pub retry_after_delay : Http → Text → ℕ → Option ℕ
unfolding trim_space parse_int
retry_after_delay http value now =
    let text = trim_space value in
    if is_empty text then none else parsed_delay http text now (parse_int 32 text)

-- `retryAfterSeconds`
unfoldable pub retry_after_seconds : ℕ → Text
unfolding format_decimal
retry_after_seconds delay =
    let seconds = (delay + (second - 1)) / second in
    format_decimal (if ltb seconds 1 then 1 else seconds)

-- `rateLimitBackoff`
unfoldable pub rate_limit_backoff : Protection → (ℕ → ℕ) → ℕ → ℕ
rate_limit_backoff p jitter attempt =
    let shifted = second * 2 ^ min attempt 5 in
    let maximum = if ltb p.max_retry_after shifted then p.max_retry_after else shifted in
    let delay = jitter maximum in
    let minimum = min (100 * millisecond) maximum in if ltb delay minimum then minimum else delay

-- `retryableRequest`
unfoldable pub retryable_request : UpstreamRequest → Bool
unfolding text_eq
retryable_request request =
    (text_eq request.method (codes "GET") || text_eq request.method (codes "HEAD"))
    && not request.has_body

-- `upstreamRegistryKey`, on the URL of the request
unfoldable pub upstream_registry_key : Urls → Url → Text
unfolding to_lower normalize_http_origin
upstream_registry_key urls url =
    let origin = url.scheme ++ (codes "://" ++ url.host) in
    elim (normalize_http_origin urls origin) [ none ↦ to_lower origin | some normal ↦ normal ]

-- How the wait for a slot of the registry ends.
pub data Slot : Type 0 where
  acquired queue_timeout : Slot
  canceled : Text → Slot

-- What the registry answers.
pub data Answer : Type 0 where
  failed : Text → Answer
  answered : Response → Answer

-- What the outside world answers in one round. `remote` is the shared cooldown where it is read,
-- `cooled` and `paused` are the errors of the two waits.
pub record Attempt : Type 0 where
  pub remote : Option ℕ
  pub now : ℕ
  pub cooled : Option Text
  pub slot : Slot
  pub answer : Answer
  pub received_at : ℕ
  pub set_at : ℕ
  pub jitter : ℕ → ℕ
  pub paused : Option Text

pub data Step : Type 0 where
  take_slot release_slot retry : Step
  request_sent : Text → Step
  throttled : Text → Step
  wait : ℕ → Step

pub data Result : Type 0 where
  error : Text → Result
  response : Response → Result
  rate_limited : ℕ → Result
  unfinished : Result

-- What the loop does, the cooldown of the registry after it, and the result.
pub record Done : Type 0 where
  pub steps : List Step
  pub cooldown : ℕ
  pub result : Result

abbrev pub finish : List Step → ℕ → Result → Done
finish steps cooldown result = record { steps = steps; cooldown = cooldown; result = result }

abbrev pub after : List Step → Done → Done
after steps rest = record rest { steps = steps ++ rest.steps }

-- `routeCooldowns.set`, on the entry of the registry
unfoldable pub later_cooldown : ℕ → ℕ → ℕ
later_cooldown old until = if ltb old until then until else old

abbrev pub known_cooldown : ℕ → Option ℕ → ℕ
known_cooldown old none = old
known_cooldown old (some remote) = later_cooldown old remote

-- The delay after a response of status 429, and the response with its header.
unfoldable pub delay_after : Http → Protection → Attempt → ℕ → Response → ℕ × Response
unfolding get set retry_after_delay retry_after_seconds rate_limit_backoff
delay_after http p a attempt resp =
    elim (retry_after_delay http (get (codes "Retry-After") resp.header) a.received_at) [
      | none ↦
          let delay = rate_limit_backoff p a.jitter attempt in
          (
            delay,
            record resp {
              header = set (codes "Retry-After") (retry_after_seconds delay) resp.header;
            },
          )
      | some zero ↦ (0, resp)
      | some (suc n) ↦
          let base = suc n in
          let delay = base + a.jitter (min (base / 10) (250 * millisecond)) in
          (
            (if leb base p.max_retry_after && ltb p.max_retry_after delay
                then p.max_retry_after
                else delay),
            resp,
          )
    ]

abbrev pub status_text : ℕ → Text
status_text status = format_decimal status

module _ (http : Http) (p : Protection) (request : UpstreamRequest) (attempts : ℕ → Attempt) where
  -- After a response of status 429: it is returned, or thrown away for another attempt.
  unfoldable pub limited : ℕ → ℕ → ℕ × Response → Done → Done
  limited attempt cooldown (delay, resp) again =
      if not (retryable_request request)
        || leb p.rate_limit_retries attempt
        || ltb p.max_retry_after delay
      then finish [] cooldown (response resp)
      else elim (attempts attempt).paused [
        | some e ↦ finish (release_slot ∷ retry ∷ wait delay ∷ []) cooldown (error e)
        | none ↦ after (release_slot ∷ retry ∷ wait delay ∷ []) again
      ]

  -- After the answer of the registry.
  unfoldable pub take_answer : (ℕ → Done) → ℕ → ℕ → Answer → Done
  take_answer again attempt cooldown (failed e) =
      finish (take_slot ∷ release_slot ∷ request_sent (codes "error") ∷ []) cooldown (error e)
  take_answer again attempt cooldown (answered resp) =
      let sent = take_slot ∷ request_sent (status_text resp.status_code) ∷ [] in
      if not (resp.status_code == 429)
      then finish sent cooldown (response resp)
      else let a = attempts attempt in
        let limit = delay_after http p a attempt resp in
        let set_cooldown = later_cooldown cooldown (a.set_at + limit.0) in
        after sent (limited attempt set_cooldown limit (again set_cooldown))

  -- After the wait for a slot.
  unfoldable pub send_request : (ℕ → Done) → ℕ → ℕ → Slot → Done
  send_request again attempt cooldown (canceled e) = finish [] cooldown (error e)
  send_request again attempt cooldown queue_timeout =
      finish (throttled (codes "queue_timeout") ∷ []) cooldown
        (error (codes "upstream request queue timed out"))
  send_request again attempt cooldown acquired =
      take_answer again attempt cooldown (attempts attempt).answer

  -- `waitForCooldown`, and what follows it
  unfoldable pub cool_down : (ℕ → Done) → ℕ → ℕ → Done
  cool_down again attempt cooldown =
      let a = attempts attempt in
      let until = known_cooldown cooldown a.remote in
      let remaining = until - a.now in
      if remaining == 0
      then send_request again attempt until a.slot
      else if ltb p.max_retry_after remaining
      then finish (throttled (codes "cooldown") ∷ []) until (rate_limited remaining)
      else elim a.cooled [
        | some e ↦ finish (throttled (codes "cooldown_wait") ∷ wait remaining ∷ []) until (error e)
        | none ↦
            after (throttled (codes "cooldown_wait") ∷ wait remaining ∷ [])
              (send_request again attempt until a.slot)
      ]

  -- The loop of `do`, with the cooldown of the registry.
  unfoldable pub do_from : ℕ → ℕ → ℕ → Done
  do_from zero attempt cooldown = finish [] cooldown unfinished
  do_from (suc fuel) attempt cooldown = cool_down (do_from fuel (suc attempt)) attempt cooldown

  -- `do`: one attempt and the retries are fuel enough
  unfoldable pub do_request : ℕ → Done
  do_request cooldown = do_from (suc p.rate_limit_retries) 0 cooldown
