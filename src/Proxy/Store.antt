-- ===== src/Proxy/Store.antt =====
-- internal/proxy/proxy.go: `serveAndStore`, and what the proxy does as a list of events. A write to
-- the client that fails is modelled where the body is stored as well; log lines and what becomes of
-- the request to the store are left out.
pub mod Spooled
use package_firewall.Common.{
  ◌⊎◌, ℕ, ◌+◌, Bool, not, Option, none, some, List, [], ◌∷◌, ◌++◌, ltb, if◌then◌else◌,
}
use package_firewall.Common.Text.{Text, codes, is_empty}
use package_firewall.Common.Decimal.{pos}
use package_firewall.ArtifactCache.{PutRequest}
use package_firewall.Proxy.Headers.{Headers, get, set, safe_headers}
use package_firewall.Proxy.Rewrite.{Read, more, last, broken, Outcome, ended, unfinished, failed}
use package_firewall.Proxy.Spool.{Writer, Spool, new_capture_spool, stream_and_capture}
use package_firewall.Proxy.Response.{Response, Http, aged_headers}

-- What the proxy does, in order.
pub data Event : Type 0 where
  respond : ℕ → Headers → Event
  send : Text → Event
  hit miss read_error store_error : Event
  bypass : Text → Event
  put : Text → PutRequest → Event

-- `Result` and the error; the status is 0 while none has been sent.
pub record Reply : Type 0 where
  pub events : List Event
  pub status : ℕ
  pub error : Option Text

abbrev pub with_events : List Event → Reply → Reply
with_events events reply = record reply { events = events ++ reply.events }

abbrev pub refuse : Text → Reply
refuse e = record { events = []; status = 0; error = some e }

abbrev pub outcome_error : Outcome → Option Text
outcome_error ended = none
outcome_error unfinished = some (codes "the body goes on")
outcome_error (failed e) = some e

-- io.Copy of a body
unfoldable pub copy_body : List Read → Text × Outcome
copy_body [] = ([], unfinished)
copy_body (more chunk ∷ reads) = let (rest, outcome) = copy_body reads in (chunk ++ rest, outcome)
copy_body (last chunk ∷ reads) = (chunk, ended)
copy_body (broken chunk e ∷ reads) = (chunk, failed e)

-- The request that goes to the registry.
pub record UpstreamRequest : Type 0 where
  pub method : Text
  pub target : Text
  pub header : Headers
  pub has_body : Bool

-- The settings of the proxy that these functions read; `lookup_env` is os.Getenv.
pub record Settings : Type 0 where
  pub base_url : Text
  pub has_store : Bool
  pub maximum : ℕ
  pub artifact_ttl : ℕ
  pub lookup_env : Text → Text

-- What the outside world answers: the response of the registry or an error, the times of the
-- request, of the response and of the storing, the temporary file and the client's connection.
pub record World : Type 0 where
  pub exchange : UpstreamRequest → Text ⊎ Response
  pub requested_at : ℕ
  pub received_at : ℕ
  pub stored_at : ℕ
  pub created : Bool
  pub rewound : Bool
  pub disk : Writer
  pub client : Writer

-- The body as it is.
unfoldable pub pass_through : Headers → Response → Reply
unfolding copy_body
pass_through header resp =
    let (body, outcome) = copy_body resp.body in
    record {
      events = respond resp.status_code header ∷ send body ∷ [];
      status = resp.status_code;
      error = outcome_error outcome;
    }

module _ (http : Http) (sha256_hex : Text → Text) (settings : Settings) (w : World) where
  -- The time of expiry and the headers to store; `none` if the response is not fresh any more
  unfoldable pub stored_as : Headers → Option ℕ → Option (ℕ × Headers)
  unfolding aged_headers safe_headers
  stored_as header none = some (w.stored_at + settings.artifact_ttl, safe_headers header)
  stored_as header (some npm_expires_at) =
      if not (ltb w.stored_at npm_expires_at)
      then none
      else let ttl_end = w.stored_at + settings.artifact_ttl in
        some (
          (if ltb npm_expires_at ttl_end then npm_expires_at else ttl_end),
          aged_headers http (safe_headers header) w.received_at w.stored_at,
        )

  unfoldable pub with_date : Headers → Headers
  unfolding set get
  with_date header =
      if is_empty (get (codes "Date") header)
      then set (codes "Date") (http.format_time w.stored_at) header
      else header

  -- What is stored of a spool.
  unfoldable pub put_request : Text → Spool → ℕ × Headers → Event
  unfolding with_date
  put_request key spool (expires_at, header) = put key (record {
    headers = with_date header;
    body = some (last spool.captured ∷ []);
    sha256 = sha256_hex spool.captured;
    size = pos spool.size;
    stored_at = w.stored_at;
    expires_at = expires_at;
  })

  -- After the body has gone to the client.
  unfoldable pub store_spool : Text → Response → Option ℕ → Spool → List Event
  unfolding stored_as put_request
  store_spool key resp npm_expires_at spool = elim spool.error [
    | some e ↦ store_error ∷ []
    | none ↦
        if spool.overflow
        then bypass (codes "object_too_large") ∷ []
        else if not w.rewound
        then store_error ∷ []
        else elim (stored_as resp.header npm_expires_at) [
          | none ↦ bypass (codes "response_cache_control") ∷ []
          | some kept ↦ put_request key spool kept ∷ []
        ]
  ]

  -- `serveAndStore`; the header is the response's as it goes to the client
  unfoldable pub serve_and_store : Text → Headers → Response → Option ℕ → Reply
  unfolding store_spool
  serve_and_store key header resp npm_expires_at =
      if not w.created
      then with_events (store_error ∷ []) (pass_through header resp)
      else let streamed =
          stream_and_capture w.client w.disk (new_capture_spool settings.maximum) resp.body in
        let start = respond resp.status_code header ∷ send streamed.delivered ∷ [] in
        elim (outcome_error streamed.outcome) [
          | some e ↦ record { events = start; status = resp.status_code; error = some e }
          | none ↦ record {
            events = start ++ store_spool key resp npm_expires_at streamed.spool;
            status = resp.status_code;
            error = none;
          }
        ]
