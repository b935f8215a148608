-- ===== src/Log/Callers/Queue.antt =====
-- What holds of the interleaved calls of `write_log`, and that the test of the queue and the push keep it.
use mathlib.Core.List.{Perm, perm_middle}
use mathlib.Core.List.Perm
use linux_image_server.Base.{
  ℕ, suc, ◌+◌, ◌≤◌, ◌≡◌, refl, sym, ap, ◌∙◌, arith, subst, not, ◌&&◌, branch, inl, inr, List, [],
  ◌∷◌, ◌++◌, map, length, append-nil, append_assoc,
}
use linux_image_server.BlockQueue.{Ring, full, push}
use linux_image_server.BlockQueue.Inv.{push-IsValid}
use linux_image_server.BlockQueue.Refine.{contents}
use linux_image_server.Log.Saves.{IsAsync, saved, contents-push}
use linux_image_server.Log.Callers.{Callers, busy, ask, push_line}
use linux_image_server.Log.Callers.Out.{
  deeper, out_of, swapped, length-out_of, push-cases, full-filled, full-room, not_full,
}

-- Each line that was made is in a file, in the queue, with a call, or lost; and with one call at a time
-- a call that pushes has room, and none is lost.
pub record IsKept (k : ℕ) (c : Callers) (q : Ring (List ℕ)) : Type 0 where
  pub async : IsAsync c.log q
  pub kept : Perm (saved c.log q ++ (c.made ++ (c.pushing ++ (c.putting ++ c.lost)))) c.logged
  pub few : busy c ≤ k
  pub room : k ≤ 1 → length c.pushing + q.size ≤ q.max_size
  pub none_lost : k ≤ 1 → c.lost ≡ []

module _ (k : ℕ) (c : Callers) (q : Ring (List ℕ)) (h : IsKept k c q) where
  pub asks-IsKept :
      (before : List (List ℕ)) (line : List ℕ) (behind : List (List ℕ))
      → c.made ≡ before ++ line ∷ behind
      → IsKept k (ask c q before line behind) q
  unfolding ask
  asks-IsKept before line behind e =
      let old =
        subst (λ m. Perm (saved c.log q ++ (m ++ (c.pushing ++ (c.putting ++ c.lost)))) c.logged) e
          h.kept in
      let out =
        deeper (saved c.log q) (out_of before line behind (c.pushing ++ (c.putting ++ c.lost))) in
      let len : length c.made ≡ suc (length (before ++ behind)) =
        ap length e ∙ length-out_of before line behind in
      branch (λ d. IsKept k d q) (c.log.is_async && not (full q)) _ _
        (λ found. record {
          async = record { async = h.async.async; queue = h.async.queue; valid = h.async.valid };
          kept = swapped old out (
              deeper (saved c.log q) (
                deeper (before ++ behind)
                  (Perm.refl (line ∷ (c.pushing ++ (c.putting ++ c.lost))))));
          few = omega (arith, h.few, len);
          room = λ one.
              omega (arith, h.few, len, one, full-room q (not_full c.log.is_async (full q) found));
          none_lost = h.none_lost;
        })
        (λ none_found. record {
          async = record { async = h.async.async; queue = h.async.queue; valid = h.async.valid };
          kept = swapped old out (
              deeper (saved c.log q) (
                deeper (before ++ behind)
                  (deeper c.pushing (Perm.refl (line ∷ (c.putting ++ c.lost))))));
          few = omega (arith, h.few, len);
          room = h.room;
          none_lost = h.none_lost;
        })

  pub pushes-IsKept :
      (before : List (List ℕ)) (line : List ℕ) (behind : List (List ℕ))
      → c.pushing ≡ before ++ line ∷ behind
      → IsKept k (push_line c q before line behind) (push q line).1
  unfolding push_line
  pushes-IsKept before line behind e =
      let old =
        subst (λ m. Perm (saved c.log q ++ (c.made ++ (m ++ (c.putting ++ c.lost)))) c.logged) e
          h.kept in
      let out =
        deeper (saved c.log q) (deeper c.made (out_of before line behind (c.putting ++ c.lost))) in
      let len : length c.pushing ≡ suc (length (before ++ behind)) =
        ap length e ∙ length-out_of before line behind in
      let lines = map (λ p. p.1) c.log.lines in
      let after : List (List ℕ) = c.made ++ ((before ++ behind) ++ (c.putting ++ c.lost)) in
      elim (push-cases q line) [
        | inl (f, refused, same) ↦ rw refused (record {
          async = record {
            async = h.async.async;
            queue = refl;
            valid = push-IsValid line h.async.valid;
          };
          kept =
              subst
                (λ r.
                  Perm
                    (saved c.log r
                      ++ (c.made ++ ((before ++ behind) ++ (c.putting ++ (line ∷ c.lost)))))
                    c.logged)
                (sym same)
                (swapped old out (
                  deeper (saved c.log q) (
                    deeper c.made
                      (deeper (before ++ behind) (deeper c.putting (Perm.refl (line ∷ c.lost)))))));
          few = omega (arith, h.few, len);
          room = λ one. absurd (omega (arith, h.room one, len, full-filled q f));
          none_lost = λ one. absurd (omega (arith, h.room one, len, full-filled q f));
        })
        | inr (f, done, grown, kept_cap) ↦ rw done (record {
          async = record {
            async = h.async.async;
            queue = refl;
            valid = push-IsValid line h.async.valid;
          };
          kept = swapped old out (
              subst (λ xs. Perm ((lines ++ xs) ++ after) (line ∷ (saved c.log q ++ after)))
                (sym (contents-push line q h.async.valid f))
                (subst (λ xs. Perm (xs ++ after) (line ∷ (saved c.log q ++ after)))
                  (append_assoc lines (contents [] q) (line ∷ []))
                  (Perm.append_right after (
                    subst (λ xs. Perm (saved c.log q ++ line ∷ []) (line ∷ xs))
                      (append-nil (saved c.log q)) (perm_middle (saved c.log q) [])))));
          few = omega (arith, h.few, len);
          room = λ one. omega (arith, h.room one, len, grown, kept_cap);
          none_lost = h.none_lost;
        })
      ]
