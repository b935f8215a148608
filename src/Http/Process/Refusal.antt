-- ===== src/Http/Process/Refusal.antt =====
-- What the peer of `process` gets when its request is refused.
use linux_image_server.Base.{
  ℕ, ◌≡◌, ◌≢◌, refl, sym, ◌∙◌, subst, Bool, true, false, Option, none, some, List, ◌∷◌, length,
}
use linux_image_server.Http.Types.{Parser, HttpState, LineState}
use linux_image_server.Http.Parse.{Parsed, answer, request, fault, out_of_fuel, parse}
use linux_image_server.Http.Parse.Terminates.{parse-ends}
use linux_image_server.Http.Request.{Site, Handler, do_request}
use linux_image_server.Http.Response.{Writer, write_to_buffer}
use linux_image_server.Http.Response.Whole.{Refused, refusal, IsFresh, write_to_buffer-refusal}
use linux_image_server.Http.Send.{Event, took, write_to_fd}
use linux_image_server.Http.Send.Complete.{Done, refusal_delivered}
use linux_image_server.Http.Process.{
  Processed, sent, stuck, shared, write_result, write, after_request, after_parse, process,
}

module _ (site : Site) (einval : List ℕ → Bool) where
  -- How a request comes to its state: `parse_` returns it, or `do_request_` does.
  pub data ComesTo (status : LineState) (h : Handler) : HttpState → Handler → Type 0 where
    parsed :
        {ret : HttpState} {p : Parser}
        → parse einval status h.parser ≡ answer ret p
        → ComesTo status h ret (record h { parser = p })
    served :
        {ret : HttpState} {p : Parser} {h' : Handler}
        → parse einval status h.parser ≡ request p
        → do_request site (record h { parser = p }) ≡ some (ret, h')
        → ComesTo status h ret h'

  process-ComesTo :
      (es : List Event) (status : LineState) (h : Handler) (w : Writer) {ret : HttpState}
      {h' : Handler}
      → ComesTo status h ret h'
      → process site einval es status h w ≡ write es ret (shared h' w)
  unfolding process after_parse after_request
  process-ComesTo es status h w (parsed e) = rw e refl
  process-ComesTo es status h w (served e d) = rw e (rw d refl)

  write_sent :
      (es : List Event) (ret : HttpState) (w w' : Writer)
      → write_to_buffer ret w ≡ (true, w')
      → write es ret w ≡ sent (write_to_fd es w')
  unfolding write write_result
  write_sent es ret w w' e = rw e refl

  abbrev pub Refuses : Processed → Bool → List ℕ → Type 0
  Refuses (sent s) linger bytes = Done s linger bytes
  Refuses _ linger bytes = ⊥

  shared-IsFresh : (h : Handler) (w : Writer) → IsFresh w → IsFresh (shared h w)
  shared-IsFresh h w f = record {
    roomy = record { size = f.roomy.size; below = f.roomy.below };
    empty = f.empty;
    none_counted = f.none_counted;
    none_sent = f.none_sent;
    none_left = f.none_left;
  }

  -- A request that comes to an error state, in parsing or in `do_request_`, is answered on a fresh
  -- writer by exactly that state's answer, with the connection header for the m_linger that the
  -- request left, when the socket takes all of it in the first write.
  pub process-Refused :
      {ret : HttpState} (r : Refused ret) (status : LineState) (h h' : Handler) (w : Writer)
      (later : List Event)
      → ComesTo status h ret h'
      → IsFresh w
      → Refuses
          (process site einval (took (length (refusal r h'.parser.linger)) ∷ later) status h w)
          h'.parser.linger
          (refusal r h'.parser.linger)
  process-Refused {ret} r status h h' w later c f =
      let es = took (length (refusal r h'.parser.linger)) ∷ later in
      let start = shared h' w in
      let fresh = shared-IsFresh h' w f in
      let (w', e, ready, l) = write_to_buffer-refusal r start fresh in
      subst (λ x. Refuses x h'.parser.linger (refusal r h'.parser.linger))
        (sym (process-ComesTo es status h w c ∙ write_sent es ret start w' e))
        (subst (λ v. Done (write_to_fd es v.1) h'.parser.linger (refusal r h'.parser.linger)) e
          (refusal_delivered r start later fresh))

  write_result-ends : (es : List Event) (x : Bool × Writer) → write_result es x ≢ stuck
  unfolding write_result
  write_result-ends es (true, w) = λ e. absurd (cc)
  write_result-ends es (false, w) = λ e. absurd (cc)

  after_request-ends :
      (es : List Event) (w : Writer) (o : Option (HttpState × Handler))
      → after_request es w o ≢ stuck
  unfolding after_request write
  after_request-ends es w none = λ e. absurd (cc)
  after_request-ends es w (some (ret, h)) = write_result-ends es (write_to_buffer ret (shared h w))

  after_parse-ends :
      (es : List Event) (h : Handler) (w : Writer) (x : Parsed)
      → x ≢ out_of_fuel
      → after_parse site einval es h w x ≢ stuck
  unfolding after_parse write
  after_parse-ends es h w (answer ret p) ok =
      write_result-ends es (write_to_buffer ret (shared (record h { parser = p }) w))
  after_parse-ends es h w (request p) ok =
      after_request-ends es w (do_request site (record h { parser = p }))
  after_parse-ends es h w fault ok = λ e. absurd (cc)
  after_parse-ends es h w out_of_fuel ok = λ e. ok refl

  -- From any state of the handler and any buffer `process` never ends because the fuel of `parse`
  -- ran out.
  pub process-ends :
      (es : List Event) (status : LineState) (h : Handler) (w : Writer)
      → process site einval es status h w ≢ stuck
  unfolding process
  process-ends es status h w =
      after_parse-ends es h w (parse einval status h.parser) (parse-ends einval status h.parser)
