-- ===== src/Http/Handle/Ends.antt =====
-- The end of the server's process at the end of a connection: `remove_fd` takes the 0 that close
-- returns for an error.
use linux_image_server.Base.{
  ℕ, ◌+◌, ◌≤◌, ◌≡◌, refl, ◌∙◌, ap, ◌⊎◌, inl, inr, sym, subst, Bool, true, false, List, [], ◌∷◌,
  ◌++◌, length, map, Bool-cases, leb, arith,
}
use linux_image_server.CString.{splice}
use linux_image_server.CString.Laws.{length-splice, store-some}
use linux_image_server.Descriptors.Remove.{IsClose, remove_fd-exits}
use linux_image_server.Http.Types.{Parser, read_buffer_size}
use linux_image_server.Http.Request.{Site, Handler}
use linux_image_server.Http.Response.{Writer}
use linux_image_server.Http.Read.{
  Recv, got, loaded, waiting, hung_up, receive, on_event, go_on, read_loop, read,
}
use linux_image_server.Http.Types.{HttpState}
use linux_image_server.Http.Response.Whole.{Refused, refusal, IsFresh}
use linux_image_server.Http.Send as Send
use linux_image_server.Http.Send.{Event, took, lingers, closes, sending}
use linux_image_server.Http.Process as Process
use linux_image_server.Http.Process.{Processed, sent, dropped, stuck, process}
use linux_image_server.Http.Process.Refusal.{ComesTo, Refuses, process-Refused}
use linux_image_server.Http.Handle.{
  Calls, Handled, handled, ended, settle, parse_and_write, after_read, handle,
}

-- The bytes of chunks that recv gives one after the other.
unfoldable pub total : List (List ℕ) → ℕ
total [] = 0
total (c ∷ cs) = length c + total cs

module _ (es : List Recv) where
  receive-lost :
      (c : List ℕ) (p : Parser) (tried room : ℕ)
      → p.read_idx + length c + room ≤ length p.read_buf
      → (receive p c tried ≡ hung_up p)
        ⊎ ((p' : Parser) × ((receive p c tried ≡ waiting p' tried)
              × (p'.read_idx + room ≤ length p'.read_buf)))
  unfolding receive
  receive-lost [] p tried room le = inl refl
  receive-lost (b ∷ bs) p tried room le = inr (
    record p {
      read_buf = splice p.read_idx (b ∷ bs) p.read_buf;
      read_idx = p.read_idx + length (b ∷ bs);
    },
    (
      rw (store-some p.read_idx (b ∷ bs) p.read_buf (omega arith), receive) refl,
      omega (arith, length-splice p.read_idx (b ∷ bs) p.read_buf),
    ),
  )

  -- The peer closes after chunks that fit the buffer.
  chunks-hung_up :
      (cs : List (List ℕ)) (p : Parser) (tried : ℕ)
      → p.read_idx + total cs ≤ length p.read_buf
      → (p' : Parser) × (read_loop (map got cs ++ got [] ∷ es) p tried ≡ hung_up p')
  unfolding read_loop on_event go_on receive total
  chunks-hung_up [] p tried le = (p, refl)
  chunks-hung_up (c ∷ cs) p tried le =
      let rest = read_loop (map got cs ++ got [] ∷ es) in
      elim (receive-lost c p tried (total cs) (omega arith)) [
        | inl stops ↦ (p, ap (go_on rest) stops)
        | inr (p1, (goes, fits)) ↦
            let (p', e) = chunks-hung_up cs p1 tried fits in (p', ap (go_on rest) goes ∙ e)
      ]

read-hung_up :
    (cs : List (List ℕ)) (es : List Recv) (p : Parser)
    → p.read_idx + total cs ≤ length p.read_buf
    → (p' : Parser) × (read (map got cs ++ got [] ∷ es) p ≡ hung_up p')
unfolding read
read-hung_up cs es p fits = elim (Bool-cases (leb read_buffer_size p.read_idx)) [
  | inl full ↦ (p, rw full refl)
  | inr room ↦ let (p', e) = chunks-hung_up es cs p 10 fits in (p', rw room e)
]

module _ (site : Site) (einval : List ℕ → Bool) (calls : Calls) (h : Handler) (w : Writer) where
  -- How a handling ends whose answer the peer has whole: the server goes on with the connection kept
  -- when m_linger is set, and otherwise its process ends.
  abbrev pub Goes : Bool → List ℕ → Handled → Type 0
  Goes true bytes r = (w' : Writer) × (r ≡ handled (sent (lingers w' bytes)))
  Goes false bytes r = r ≡ ended

  settle-Goes :
      IsClose calls.removed_writing
      → (o : Processed) (linger : Bool) (bytes : List ℕ) → Refuses site einval o linger bytes
      → Goes linger bytes (settle calls o)
  unfolding settle
  settle-Goes doc (sent (lingers v out)) true bytes (e, f) =
      (v, ap (λ b. handled (sent (lingers v b))) e)
  settle-Goes doc (sent (closes v out)) false bytes d =
      rw (remove_fd-exits calls.removed_writing doc) refl
  settle-Goes doc (sent (lingers v out)) false bytes d = elim d [ ]
  settle-Goes doc (sent (closes v out)) true bytes d = elim d [ ]
  settle-Goes doc (sent (Send.broken v out)) linger bytes d = elim d [ ]
  settle-Goes doc (sent (sending v out)) linger bytes d = elim d [ ]
  settle-Goes doc (sent Send.fault) linger bytes d = elim d [ ]
  settle-Goes doc (dropped v) linger bytes d = elim d [ ]
  settle-Goes doc Process.broken linger bytes d = elim d [ ]
  settle-Goes doc stuck linger bytes d = elim d [ ]

  -- A request that is read, comes to an error state in parsing or in `do_request_`, and whose answer the
  -- socket takes in the first write, from a fresh writer: with m_linger the handling returns with exactly
  -- that state's answer sent and the connection kept, and without it the process of the server ends,
  -- since close returns what its documentation says.
  pub handle-answers :
      {ret : HttpState} {p : Parser} {h' : Handler} (r : Refused ret) (later : List Event)
      → read calls.received h.parser ≡ loaded p
      → ComesTo site einval calls.status (record h { parser = p }) ret h'
      → IsFresh w
      → calls.written ≡ took (length (refusal r h'.parser.linger)) ∷ later
      → IsClose calls.removed_writing
      → Goes h'.parser.linger (refusal r h'.parser.linger) (handle site einval calls h w)
  unfolding handle after_read parse_and_write
  handle-answers {ret} {p} {h'} r later has comes fresh writes doc =
      let linger = h'.parser.linger in
      let bytes = refusal r linger in
      let h1 : Handler = record h { parser = p } in
      let answers = process-Refused site einval r calls.status h1 h' w later comes fresh in
      subst (λ x. Goes linger bytes (after_read site einval calls h w x)) (sym has)
        (settle-Goes doc (process site einval calls.written calls.status h1 w) linger bytes (
          subst (λ es. Refuses site einval (process site einval es calls.status h1 w) linger bytes)
            (sym writes) answers))

  -- A client that closes its side, after any chunks of bytes that fit the read buffer and before a
  -- recv that has nothing, ends the server: close returns what its documentation says.
  pub hang_up_ends :
      (cs : List (List ℕ)) (es : List Recv)
      → calls.received ≡ map got cs ++ got [] ∷ es
      → IsClose calls.removed_reading
      → h.parser.read_idx + total cs ≤ length h.parser.read_buf
      → handle site einval calls h w ≡ ended
  unfolding handle after_read
  hang_up_ends cs es e doc fits =
      let (p', hangs) = read-hung_up cs es h.parser fits in
      ap (λ rs. after_read site einval calls h w (read rs h.parser)) e
      ∙ ap (after_read site einval calls h w) hangs
      ∙ rw (remove_fd-exits calls.removed_reading doc) refl
