-- ===== src/Proxy/Store/Spooled.antt =====
-- What `serveAndStore` puts into the artifact cache.
use mathlib.Core.List.{append-nil}
use package_firewall.Common.{
  inl, inr, ℕ, ◌≤◌, ◌≡◌, refl, sym, ap, ◌∙◌, false, Option, none, some, List, [], ◌∷◌, ◌++◌, ltb,
  arith, Bool-cases, Option-cases,
}
use package_firewall.Common.Text.{Text}
use package_firewall.Common.Lists.{length}
use package_firewall.Common.Decimal.{pos}
use package_firewall.ArtifactCache.{PutRequest}
use package_firewall.Proxy.Headers.{Headers}
use package_firewall.Proxy.CacheKey.{key}
use package_firewall.Proxy.Rewrite.{last}
use package_firewall.Proxy.Spool.{Spool, Streamed, new_capture_spool, stream_and_capture}
use package_firewall.Proxy.Spool.Capture.{stream_and_capture-Kept, take_all}
use package_firewall.Proxy.Response.{Response, Http}
use package_firewall.Proxy.Store.{
  Event, respond, send, hit, miss, read_error, store_error, bypass, put, Reply, outcome_error,
  Settings, World, put_request, store_spool, pass_through, serve_and_store,
}

-- The first entry that is put into the store.
unfoldable pub put_of : List Event → Option (Text × PutRequest)
put_of [] = none
put_of (put k req ∷ _) = some (k, req)
put_of (respond _ _ ∷ events) = put_of events
put_of (send _ ∷ events) = put_of events
put_of (hit ∷ events) = put_of events
put_of (miss ∷ events) = put_of events
put_of (read_error ∷ events) = put_of events
put_of (store_error ∷ events) = put_of events
put_of (bypass _ ∷ events) = put_of events

-- What the client gets.
unfoldable pub sent_of : List Event → Text
sent_of [] = []
sent_of (send body ∷ events) = body ++ sent_of events
sent_of (respond _ _ ∷ events) = sent_of events
sent_of (hit ∷ events) = sent_of events
sent_of (miss ∷ events) = sent_of events
sent_of (read_error ∷ events) = sent_of events
sent_of (store_error ∷ events) = sent_of events
sent_of (bypass _ ∷ events) = sent_of events
sent_of (put _ _ ∷ events) = sent_of events

-- The entry holds exactly what the client got, with its size and its checksum.
pub record Holds (sha256_hex : Text → Text) (maximum : ℕ) (reply : Reply) (req : PutRequest)
    : Type 0 where
  pub content : req.body ≡ some (last (sent_of reply.events) ∷ [])
  pub checksum : req.sha256 ≡ sha256_hex (sent_of reply.events)
  pub size : req.size ≡ pos (length (sent_of reply.events))
  pub bounded : length (sent_of reply.events) ≤ maximum
  pub finished : reply.error ≡ none

module _ (http : Http) (sha256_hex : Text → Text) (settings : Settings) (w : World) where
  store_spool-put :
      (key : Text) (resp : Response) (npm_expires_at : Option ℕ) (spool : Spool) (k : Text)
      (req : PutRequest)
      → put_of (store_spool http sha256_hex settings w key resp npm_expires_at spool)
        ≡ some (k, req)
      → (spool.error ≡ none)
        × (spool.overflow ≡ false)
        × (k ≡ key)
        × (req.body ≡ some (last spool.captured ∷ []))
        × (req.sha256 ≡ sha256_hex spool.captured)
        × (req.size ≡ pos spool.size)
  unfolding store_spool put_of put_request
  store_spool-put key resp npm_expires_at spool k req h = ground arith

  store_spool-sent :
      (key : Text) (resp : Response) (npm_expires_at : Option ℕ) (spool : Spool)
      → sent_of (store_spool http sha256_hex settings w key resp npm_expires_at spool) ≡ []
  unfolding store_spool sent_of put_request
  store_spool-sent key resp npm_expires_at spool = ground arith

  abbrev stream : Response → Streamed
  stream resp = stream_and_capture w.client w.disk (new_capture_spool settings.maximum) resp.body

  -- A reply that puts an entry is the one for a body that was streamed to its end.
  serve_and_store-put :
      (key : Text) (header : Headers) (resp : Response) (npm_expires_at : Option ℕ) (k : Text)
      (req : PutRequest)
      → put_of (serve_and_store http sha256_hex settings w key header resp npm_expires_at).events
        ≡ some (k, req)
      → serve_and_store http sha256_hex settings w key header resp npm_expires_at ≡ record {
        events =
            respond resp.status_code header
            ∷ send (stream resp).delivered
            ∷ store_spool http sha256_hex settings w key resp npm_expires_at (stream resp).spool;
        status = resp.status_code;
        error = none;
      }
  unfolding serve_and_store put_of pass_through
  serve_and_store-put key header resp npm_expires_at k req h = elim (Bool-cases w.created) [
    | inr never ↦
        let e : ◌≡◌ {A = Option (Text × PutRequest)} none (some (k, req)) =
          rw (never, serve_and_store) at h in
        cc
    | inl created ↦ elim (Option-cases (outcome_error (stream resp).outcome)) [
      | inr (e, broke) ↦
          let f : ◌≡◌ {A = Option (Text × PutRequest)} none (some (k, req)) =
            rw (created, broke, serve_and_store) at h in
          cc
      | inl ended ↦ rw (created, ended, serve_and_store) refl
    ]
  ]

  -- What the spool holds of a body that is stored.
  spooled :
      (resp : Response)
      → (stream resp).spool.error ≡ none
      → (stream resp).spool.overflow ≡ false
      → ((stream resp).spool.captured ≡ (stream resp).delivered)
        × ((stream resp).spool.size ≡ length (stream resp).delivered)
        × (length (stream resp).delivered ≤ settings.maximum)
  spooled resp sound fits =
      let kept = stream_and_capture-Kept w.client w.disk settings.maximum resp.body sound in
      let short : length (stream resp).delivered ≤ (stream resp).spool.maximum =
        let e : ltb (stream resp).spool.maximum (length (stream resp).delivered) ≡ false =
          sym kept.exceeded ∙ fits in
        ground arith in
      let whole : (stream resp).spool.captured ≡ (stream resp).delivered =
        kept.held ∙ take_all (stream resp).spool.maximum (stream resp).delivered short in
      (whole, kept.sized ∙ ap (λ (t : Text). length t) whole, omega (arith, short, kept.limit))

  pub serve_and_store-Holds :
      (key : Text) (header : Headers) (resp : Response) (npm_expires_at : Option ℕ) (k : Text)
      (req : PutRequest)
      → put_of (serve_and_store http sha256_hex settings w key header resp npm_expires_at).events
        ≡ some (k, req)
      → (k ≡ key)
        × Holds sha256_hex settings.maximum
            (serve_and_store http sha256_hex settings w key header resp npm_expires_at)
            req
  unfolding put_of sent_of
  serve_and_store-Holds key header resp npm_expires_at k req h =
      let reply = serve_and_store-put key header resp npm_expires_at k req h in
      let (sound, fits, same, content, checksum, size) =
        store_spool-put key resp npm_expires_at (stream resp).spool k req (rw reply at h) in
      let (whole, long, short) = spooled resp sound fits in
      let nothing_more = store_spool-sent key resp npm_expires_at (stream resp).spool in
      let sent : (stream resp).delivered ++ [] ≡ (stream resp).delivered = append-nil _ in
      (
        same,
        rw reply (record {
          content = rw (nothing_more, sent) (content ∙ ap (λ (t : Text). some (last t ∷ [])) whole);
          checksum = rw (nothing_more, sent) (checksum ∙ ap sha256_hex whole);
          size = rw (nothing_more, sent) (size ∙ ap pos long);
          bounded = rw (nothing_more, sent) short;
          finished = refl;
        }),
      )
