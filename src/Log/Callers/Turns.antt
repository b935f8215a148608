-- ===== src/Log/Callers/Turns.antt =====
-- What each turn of a call of `write_log`, and of the writing thread, keeps.
use mathlib.Core.List.{Perm, perm_middle}
use mathlib.Core.List.Perm
use linux_image_server.Base.{
  ℕ, suc, ◌≤◌, ◌<◌, ◌≡◌, refl, sym, ap, ap₂, ◌∙◌, arith, subst, Bool, some, List, [], ◌∷◌, ◌++◌,
  map, length, append_assoc,
}
use linux_image_server.CString.{cstr}
use linux_image_server.BlockQueue.{Ring}
use linux_image_server.BlockQueue.Refine.{contents, length-contents}
use linux_image_server.Log.{Log, prefix, rotate, format_line, put_line, async_write_log}
use linux_image_server.Log.Lines.{format_line-made}
use linux_image_server.Log.Rotate.{Entry, entry_line, Fits}
use linux_image_server.Log.Saves.{
  Keeps, saved, rotate-Keeps, async_write_log-takes, async_write_log-waits,
}
use linux_image_server.Log.Callers.{Callers, busy}
use linux_image_server.Log.Callers.Out.{
  deeper, out_of, swapped, length-out_of, Puts, put_line-Puts, put-Perm,
}
use linux_image_server.Log.Callers.Queue.{IsKept}

module _ (k : ℕ) (c : Callers) (q : Ring (List ℕ)) (h : IsKept k c q) where
  abbrev rest : List (List ℕ)
  rest = c.made ++ (c.pushing ++ (c.putting ++ c.lost))

  -- A step that leaves the queue, the lines in the files and the calls behind the buffer.
  same-IsKept :
      (d : Callers)
      → d.log.is_async ≡ c.log.is_async
      → d.log.log_queue ≡ c.log.log_queue
      → saved d.log q ≡ saved c.log q
      → Perm
          (d.made ++ (d.pushing ++ (d.putting ++ d.lost)))
          (d.made ++ (c.pushing ++ (c.putting ++ c.lost)))
      → d.pushing ≡ c.pushing
      → d.lost ≡ c.lost
      → Perm (saved c.log q ++ (d.made ++ (c.pushing ++ (c.putting ++ c.lost)))) d.logged
      → busy d ≤ k
      → IsKept k d q
  same-IsKept d a l s r p o kept few = record {
    async = record { async = a ∙ h.async.async; queue = l ∙ h.async.queue; valid = h.async.valid };
    kept =
        subst (λ xs. Perm (xs ++ (d.made ++ (d.pushing ++ (d.putting ++ d.lost)))) d.logged) (sym s)
          (Perm.trans (Perm.append_left (saved c.log q) r) kept);
    few = few;
    room = λ one. omega (arith, h.room one, ap length p);
    none_lost = λ one. o ∙ h.none_lost one;
  }

  pub enters-IsKept :
      (e : Entry) (opened : Bool) (l : Log)
      → busy c < k
      → rotate e.now opened c.log ≡ some l
      → IsKept k (record c { log = l; turned = e ∷ c.turned }) q
  enters-IsKept e opened l free ran =
      let (a, (w, (ls, b))) : Keeps c.log (some l) =
        subst (Keeps c.log) ran (rotate-Keeps e.now opened c.log) in
      same-IsKept (record c { log = l; turned = e ∷ c.turned }) a w
        (ap (λ xs. map (λ p. p.1) xs ++ contents [] q) ls) (Perm.refl _) refl refl h.kept
        (omega (arith, free))

  pub formats-IsKept :
      (before : List Entry) (e : Entry) (behind : List Entry) (b : List ℕ)
      → c.turned ≡ before ++ e ∷ behind
      → Fits (length c.log.buf) e
      → format_line (prefix e.now e.level) e.text c.log.buf ≡ some b
      → IsKept k
          (record c {
            log = record c.log { buf = b };
            turned = before ++ behind;
            made = cstr b ∷ c.made;
            logged = entry_line e ∷ c.logged;
          })
          q
  formats-IsKept before e behind b had fits ran =
      let (b', (r, (line, same))) =
        format_line-made e.now e.level e.text c.log.buf fits.head fits.clean fits.room in
      let is_line : cstr b ≡ entry_line e =
        (let one : some b ≡ some b' = sym ran ∙ r in
          let b_is : b ≡ b' = cc in ap cstr b_is ∙ line) in
      let len : length c.turned ≡ suc (length (before ++ behind)) =
        ap length had ∙ length-out_of before e behind in
      record {
        async = record { async = h.async.async; queue = h.async.queue; valid = h.async.valid };
        kept =
            subst
              (λ x.
                Perm (saved c.log q ++ (x ∷ c.made ++ (c.pushing ++ (c.putting ++ c.lost))))
                  (entry_line e ∷ c.logged))
              (sym is_line)
              (Perm.trans (perm_middle (saved c.log q) rest) (Perm.cons (entry_line e) h.kept));
        few = omega (arith, h.few, len);
        room = h.room;
        none_lost = h.none_lost;
      }

  pub puts-IsKept :
      (before : List (List ℕ)) (line : List ℕ) (behind : List (List ℕ)) (l : Log)
      → c.putting ≡ before ++ line ∷ behind
      → put_line line c.log ≡ some l
      → IsKept k (record c { log = l; putting = before ++ behind }) q
  unfolding Puts
  puts-IsKept before line behind l e ran =
      let (ls, (w, a)) : Puts line c.log (some l) =
        subst (Puts line c.log) ran (put_line-Puts line c.log) in
      let old =
        subst (λ m. Perm (saved c.log q ++ (c.made ++ (c.pushing ++ (m ++ c.lost)))) c.logged) e
          h.kept in
      let out =
        deeper (saved c.log q)
          (deeper c.made (deeper c.pushing (out_of before line behind c.lost))) in
      let after : List (List ℕ) = c.made ++ (c.pushing ++ ((before ++ behind) ++ c.lost)) in
      record {
        async = record {
          async = a ∙ h.async.async;
          queue = w ∙ h.async.queue;
          valid = h.async.valid;
        };
        kept = swapped old out (
            subst (λ xs. Perm ((xs ++ contents [] q) ++ after) (line ∷ (saved c.log q ++ after)))
              (sym ls) (put-Perm (map (λ p. p.1) c.log.lines) (contents [] q) line after));
        few = omega (arith, h.few, ap length e, length-out_of before line behind);
        room = h.room;
        none_lost = h.none_lost;
      }

  pub wrote-IsKept :
      (l : Log)
      → async_write_log c.log ≡ some l
      → (q' : Ring (List ℕ)) × IsKept k (record c { log = l }) q'
  unfolding Puts
  wrote-IsKept l ran = by_contents (contents [] q) refl
    where
      by_contents :
          (xs : List (List ℕ))
          → contents [] q ≡ xs
          → (q' : Ring (List ℕ)) × IsKept k (record c { log = l }) q'
      by_contents [] e =
          let waits = async_write_log-waits c.log q h.async e in
          let same : some c.log ≡ some l = sym waits ∙ ran in
          let is_l : c.log ≡ l = cc in
          (
            q,
            subst (λ m. IsKept k (record c { log = m }) q) is_l
                (record {
                  async = h.async;
                  kept = h.kept;
                  few = h.few;
                  room = h.room;
                  none_lost = h.none_lost;
                }),
          )
      by_contents (x ∷ xs) e =
          let (q', (took, (left, (valid, cap)))) = async_write_log-takes c.log q x xs h.async e in
          let l0 : Log = record c.log { log_queue = some q' } in
          let (ls, (w, a)) : Puts x l0 (some l) =
            subst (Puts x l0) (sym took ∙ ran) (put_line-Puts x l0) in
          let lines = map (λ p. p.1) c.log.lines in
          let same : saved l q' ≡ saved c.log q =
            ap₂ (λ us vs. us ++ vs) ls left
            ∙ append_assoc lines (x ∷ []) xs
            ∙ ap (λ vs. lines ++ vs) (sym e) in
          (
            q',
            record {
              async = record { async = a ∙ h.async.async; queue = w; valid = valid };
              kept = subst (λ ys. Perm (ys ++ rest) c.logged) (sym same) h.kept;
              few = h.few;
              room = λ one. omega (
                arith,
                h.room one,
                cap,
                length-contents [] q,
                length-contents [] q',
                ap length e,
                ap length left,
              );
              none_lost = h.none_lost;
            },
          )
