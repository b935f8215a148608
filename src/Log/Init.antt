-- ===== src/Log/Init.antt =====
-- What `init` sets up.
use linux_image_server.Base.{
  ℕ, zero, suc, ◌+◌, ◌≤◌, ◌<◌, ◌≡◌, refl, sym, ap, ◌∙◌, Bool-cases, inl, inr, true, false, Option,
  none, some, List, [], ◌∷◌, ◌++◌, arith, length, take, replicate, take_of_length_le,
  length-replicate, length-append, le→leb, ◌==◌, ==_iff,
}
use linux_image_server.CString.{index_of, last_index_of, overlay, splice}
use linux_image_server.CString.Laws.{
  NoNul, Lacks, cstr-overlay, overlay-zeros, store-some, drop-append_cons,
}
use linux_image_server.BlockQueue as BlockQueue
use linux_image_server.BlockQueue.{Ring}
use linux_image_server.BlockQueue.Inv.{create-IsValid}
use linux_image_server.Log.{
  Now, Log, create, init, init_names, init_queue, text_of, date_text, day_name,
}
use linux_image_server.Log.Saves.{IsAsync, saved}

last_index_of-Lacks : (c : ℕ) (s : List ℕ) → Lacks c s → last_index_of c s ≡ none
unfolding last_index_of
last_index_of-Lacks c [] h = refl
last_index_of-Lacks c (b ∷ s) h = ground (arith, h.0, last_index_of-Lacks c s h.1)

last_index_of-append :
    (c : ℕ) (s t : List ℕ) → Lacks c t → last_index_of c (s ++ c ∷ t) ≡ some (length s)
unfolding last_index_of
last_index_of-append c [] t h = rw (last_index_of-Lacks c t h) (rw ((==_iff c c).1 refl) refl)
last_index_of-append c (b ∷ s) t h = rw (last_index_of-append c s t h) refl

take-append_cons :
    (s : List ℕ) (c : ℕ) (t : List ℕ) (n : ℕ) → n ≡ length s + 1 → take n (s ++ c ∷ t) ≡ s ++ c ∷ []
take-append_cons [] c t zero e = absurd (omega arith)
take-append_cons [] c t (suc n) e = let z : n ≡ 0 = omega arith in ap (λ k. c ∷ take k t) z
take-append_cons (b ∷ s) c t zero e = absurd (omega arith)
take-append_cons (b ∷ s) c t (suc n) e = ap (λ k. b ∷ k) (take-append_cons s c t n (omega arith))

index_of-overlay :
    (s buf : List ℕ)
    → length s < length buf
    → (i : ℕ) × (index_of 0 (overlay (s ++ 0 ∷ []) buf) ≡ some i)
unfolding index_of overlay
index_of-overlay [] [] h = absurd (omega arith)
index_of-overlay [] (x ∷ buf) h = (0, refl)
index_of-overlay (b ∷ s) [] h = absurd (omega arith)
index_of-overlay (b ∷ s) (x ∷ buf) h =
    let (i, e) = index_of-overlay s buf (omega arith) in
    elim (Bool-cases (b == 0)) [ inl z ↦ (0, rw z refl) | inr nz ↦ (suc i, rw nz (rw e refl)) ]

text_of-overlay :
    (s buf : List ℕ)
    → NoNul s
    → length s < length buf
    → text_of (overlay (s ++ 0 ∷ []) buf) ≡ some s
unfolding text_of
text_of-overlay s buf clean h =
    let (i, e) = index_of-overlay s buf h in
    rw (e, text_of) (ap some (cstr-overlay s [] buf clean h))

module _ (dir name : List ℕ) (t : Now) where
  -- The directory, with its `/` at the end.
  abbrev pub whole_dir : List ℕ
  whole_dir = dir ++ b'/' ∷ []

  -- A name of the log file that init can take, on a day whose date has at most 15 characters.
  pub record IsPath : Type 0 where
    pub base : Lacks b'/' name
    pub dir_clean : NoNul whole_dir
    pub name_clean : NoNul name
    pub dir_short : length whole_dir < 128
    pub name_short : length name < 128
    pub date_short : length (date_text t) ≤ 15

  abbrev Named : Log → Option (List ℕ × Log) → Type 0
  Named l o =
      (dir_name : List ℕ) × ((log_name : List ℕ) × ((o
            ≡ some
                (day_name whole_dir name t, record l { dir_name = dir_name; log_name = log_name }))
          × ((text_of dir_name ≡ some whole_dir) × (text_of log_name ≡ some name))))

  init_names-Named :
      (l : Log)
      → IsPath
      → l.dir_name ≡ replicate 128 0
      → l.log_name ≡ replicate 128 0
      → Named l (init_names (dir ++ b'/' ∷ name) t l)
  unfolding init_names day_name splice
  init_names-Named l p dz nz =
      let name_fits : 0 + length (name ++ 0 ∷ []) ≤ length {A = ℕ} (replicate 128 0) =
        omega (arith, length-replicate 128 zero, length-append name (0 ∷ []), p.name_short) in
      let stored_name = store-some 0 (name ++ 0 ∷ []) (replicate 128 0) name_fits in
      let stored_dir =
        store-some 0 whole_dir (replicate 128 0)
          (omega (arith, length-replicate 128 zero, p.dir_short)) in
      let name_text : text_of (splice 0 (name ++ 0 ∷ []) (replicate 128 0)) ≡ some name =
        text_of-overlay name (replicate 128 0) p.name_clean p.name_short in
      let dir_text : text_of (splice 0 whole_dir (replicate 128 0)) ≡ some whole_dir =
        ap text_of (sym (overlay-zeros 128 whole_dir p.dir_short))
        ∙ text_of-overlay whole_dir (replicate 128 0) p.dir_clean p.dir_short in
      (
        overlay whole_dir (replicate 128 0),
        (
          overlay (name ++ 0 ∷ []) (replicate 128 0),
          (
            rw (last_index_of-append b'/' dir name p.base, init_names)
                (rw (drop-append_cons dir name b'/' (length dir + 1) refl) (
                  rw (take-append_cons dir b'/' name (length dir + 1) refl) (
                    rw nz (
                      rw dz (
                        rw stored_name (
                          rw stored_dir (
                            rw dir_text (
                              rw name_text
                                (rw (take_of_length_le 15 (date_text t) p.date_short) refl))))))))),
            (dir_text, name_text),
          ),
        ),
      )

  -- For the same paths and a queue of at least one line, when fopen succeeds, `init` of a new log
  -- reports success, and the log writes through a valid queue, with no line in it or in a file.
  pub init_queue-IsAsync :
      (size split max_queue_size : ℕ)
      → IsPath
      → 1 ≤ max_queue_size
      → (l : Log) × ((init (dir ++ b'/' ∷ name) size split max_queue_size t true create
            ≡ some (true, l))
          × ((q : Ring (List ℕ)) × (IsAsync l q × (saved l q ≡ []))))
  unfolding init init_queue create BlockQueue.create
  init_queue-IsAsync size split max_queue_size p some_room =
      let positive : (max_queue_size == 0) ≡ false = ground arith in
      let q : Ring (List ℕ) = record {
        array = replicate max_queue_size [];
        size = 0;
        max_size = max_queue_size;
        front = BlockQueue.minus_one;
        back = BlockQueue.minus_one;
      } in
      let made : BlockQueue.create [] max_queue_size ≡ some q = rw positive refl in
      let l1 : Log = record create {
        is_async = true;
        log_queue = some q;
        buf = replicate size 0;
        split_lines = split;
      } in
      let (d, (n, (ran, names))) = init_names-Named l1 p refl refl in
      (
        record l1 {
          dir_name = d;
          log_name = n;
          today = t.mday;
          file = some (day_name whole_dir name t);
        },
        (
          rw made (rw (le→leb 1 max_queue_size some_room) (rw ran refl)),
          (
            q,
            (
              record {
                async = refl;
                queue = refl;
                valid = (create-IsValid [] max_queue_size made).0;
              },
              refl,
            ),
          ),
        ),
      )
