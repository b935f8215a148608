-- ===== src/Http/Read/Rewind.antt =====
-- `read_` on a socket that has no more data, and the bounds of the read buffer.
use linux_image_server.Base.{
  ℕ, zero, suc, ◌+◌, ◌-◌, ◌≤◌, ◌<◌, ◌≡◌, refl, ap, ◌∙◌, false, List, [], ◌∷◌, length, leb, ◌==◌,
  replicate, Bool-cases, arith, inl, inr, leb→le,
}
use linux_image_server.CString.{splice, store}
use linux_image_server.CString.Laws.{length-splice, store-some}
use linux_image_server.Http.Types.{Parser, read_buffer_size}
use linux_image_server.Http.Read.{
  Recv, got, not_ready, lost, Read, loaded, waiting, hung_up, underrun, overrun, receive, rewind,
  on_event, read_loop, go_on, read,
}

-- The read buffer has its size, and m_read_idx stands in it or at its end.
abbrev pub IsFit : Parser → Type 0
IsFit p = (length p.read_buf ≡ read_buffer_size) × (p.read_idx ≤ read_buffer_size)

abbrev pub AllFit : Read → Type 0
AllFit (loaded p) = IsFit p
AllFit (waiting p tried) = IsFit p
AllFit (hung_up p) = IsFit p
AllFit underrun = Unit {0}
AllFit overrun = Unit {0}

receive-AllFit :
    (p : Parser) (bytes : List ℕ) (tried : ℕ) → IsFit p → AllFit (receive p bytes tried)
unfolding receive store
receive-AllFit p [] tried fit = fit
receive-AllFit p (b ∷ bs) tried fit =
    elim (Bool-cases (leb (p.read_idx + length (b ∷ bs)) (length p.read_buf))) [
      | inl t ↦
          rw (t, receive, store)
            (
              length-splice p.read_idx (b ∷ bs) p.read_buf ∙ fit.0,
              omega (arith, leb→le _ _ t, fit.0),
            )
      | inr f ↦ rw (f, receive, store) tt
    ]

rewind-AllFit : (p : Parser) (i tried : ℕ) → i ≤ p.read_idx → IsFit p → AllFit (rewind p i tried)
unfolding rewind
rewind-AllFit p zero tried le fit = tt
rewind-AllFit p (suc i) tried le fit = (fit.0, omega (arith, fit.1))

on_event-AllFit : (e : Recv) (p : Parser) (tried : ℕ) → IsFit p → AllFit (on_event e p tried)
unfolding on_event
on_event-AllFit (got bytes) p tried fit = receive-AllFit p bytes tried fit
on_event-AllFit not_ready p tried fit = elim (Bool-cases ((tried - 1) == 0)) [
  | inl t ↦ rw (t, on_event) fit
  | inr f ↦ rw (f, on_event) (rewind-AllFit p p.read_idx (tried - 1) (omega arith) fit)
]
on_event-AllFit lost p tried fit = fit

go_on-AllFit :
    (k : Parser → ℕ → Read) (r : Read)
    → ((p : Parser) (tried : ℕ) → IsFit p → AllFit (k p tried))
    → AllFit r
    → AllFit (go_on k r)
unfolding go_on
go_on-AllFit k (loaded p) next fit = fit
go_on-AllFit k (waiting p tried) next fit = next p tried fit
go_on-AllFit k (hung_up p) next fit = fit
go_on-AllFit k underrun next fit = tt
go_on-AllFit k overrun next fit = tt

read_loop-AllFit :
    (es : List Recv) (p : Parser) (tried : ℕ) → IsFit p → AllFit (read_loop es p tried)
unfolding read_loop
read_loop-AllFit [] p tried fit = fit
read_loop-AllFit (e ∷ es) p tried fit =
    go_on-AllFit (read_loop es) (on_event e p tried) (read_loop-AllFit es)
      (on_event-AllFit e p tried fit)

-- From a buffer that fits, whatever recv answers, a run of `read_` that does not end in an underrun or
-- an overrun leaves a buffer of the same size with m_read_idx within it.
pub read-AllFit : (es : List Recv) (p : Parser) → IsFit p → AllFit (read es p)
unfolding read
read-AllFit es p fit = elim (Bool-cases (leb read_buffer_size p.read_idx)) [
  | inl t ↦ rw (t) fit
  | inr f ↦ rw (f) (read_loop-AllFit es p 10 fit)
]

rewind_lem :
    (p : Parser) (i tried : ℕ)
    → 1 ≤ i
    → rewind p i tried ≡ waiting (record p { read_idx = i - 1 }) tried
unfolding rewind
rewind_lem p zero tried le = absurd (omega arith)
rewind_lem p (suc i) tried le = ap (λ n. waiting (record p { read_idx = n }) tried) (omega arith)

idle_step :
    (p : Parser) (k : ℕ)
    → 1 ≤ p.read_idx
    → on_event not_ready p (suc (suc k)) ≡ waiting (record p { read_idx = p.read_idx - 1 }) (suc k)
unfolding on_event
idle_step p k le =
    rw (pred_suc (suc k), on_event) (rw (suc_nonzero k) (rewind_lem p p.read_idx (suc k) le))
  where
    pred_suc : (n : ℕ) → suc n - 1 ≡ n
    pred_suc n = omega arith

    suc_nonzero : (n : ℕ) → (suc n == 0) ≡ false
    suc_nonzero n = ground arith

read_loop-idle :
    (k : ℕ) (p : Parser)
    → k ≤ p.read_idx
    → read_loop (replicate (suc k) not_ready) p (suc k)
      ≡ loaded (record p { read_idx = p.read_idx - k })
unfolding read_loop on_event go_on
read_loop-idle zero p le = ap (λ n. loaded (record p { read_idx = n })) (omega arith)
read_loop-idle (suc k) p le =
    ap (go_on (read_loop (replicate (suc k) not_ready))) (idle_step p k (omega arith))
    ∙ read_loop-idle k (record p { read_idx = p.read_idx - 1 }) (omega arith)
    ∙ ap (λ n. loaded (record p { read_idx = n })) (omega arith)

receive_lem :
    (p : Parser) (b : ℕ) (bs : List ℕ) (tried : ℕ)
    → p.read_idx + length (b ∷ bs) ≤ length p.read_buf
    → receive p (b ∷ bs) tried
      ≡ waiting
          (record p {
            read_buf = splice p.read_idx (b ∷ bs) p.read_buf;
            read_idx = p.read_idx + length (b ∷ bs);
          })
          tried
unfolding receive
receive_lem p b bs tried room = rw (store-some p.read_idx (b ∷ bs) p.read_buf room, receive) refl

idle_lt : (i : ℕ) → i < read_buffer_size → leb read_buffer_size i ≡ false
idle_lt i lt = ground arith

-- After bytes that fit the buffer and ten calls that answer EAGAIN, m_read_idx counts nine bytes
-- fewer than were received.
pub read_rewinds :
    (p : Parser) (b : ℕ) (bs : List ℕ)
    → 9 ≤ p.read_idx + length (b ∷ bs)
    → p.read_idx < read_buffer_size
    → p.read_idx + length (b ∷ bs) ≤ length p.read_buf
    → read (got (b ∷ bs) ∷ replicate 10 not_ready) p
      ≡ loaded (record p {
        read_buf = splice p.read_idx (b ∷ bs) p.read_buf;
        read_idx = p.read_idx + length (b ∷ bs) - 9;
      })
unfolding read read_loop on_event go_on
read_rewinds p b bs h lt room = rw (idle_lt p.read_idx lt) (
    ap (go_on (read_loop (replicate 10 not_ready))) (receive_lem p b bs 10 room)
    ∙ read_loop-idle 9 _ h)
