-- ===== src/BlockQueue/Run.antt =====
-- Whole histories of a queue used from one thread, against the bounded list. `front` is not among the
-- calls, since it gives what BlockQueue/Front says.
use linux_image_server.Base.{
  ℕ, suc, ◌<◌, ◌≡◌, refl, sym, ap, ap₂, ◌∙◌, Bool, false, Option, none, some, List, [], ◌∷◌, arith,
  length, leb, ◌==◌,
}
use linux_image_server.BlockQueue.{
  Ring, Popped, refused, item, Wake, wait_failed, clear, push, take_front, full, empty, pop_timeout,
}
use linux_image_server.BlockQueue.Inv.{IsValid, push-IsValid, clear-IsValid}
use linux_image_server.BlockQueue.Refine.{
  enqueue, dequeue, contents, length-contents, push_refines, take_front_refines,
}

-- `get` is `pop` with a timeout that no other thread interrupts.
pub data Call {ℓ} (A : Type ℓ) : Type ℓ where
  put : A → Call A
  get wipe ask_full ask_empty ask_size : Call A

pub data Reply {ℓ} (A : Type ℓ) : Type ℓ where
  said : Bool → Reply A
  told : ℕ → Reply A
  gave : A → Reply A
  broke : Reply A
  cleared : Reply A

module _ {ℓ} {A : Type ℓ} where
  unfoldable pub reply : Popped A → Reply A
  reply (refused q) = said false
  reply (item x q) = gave x
  reply _ = broke

  unfoldable pub left : Ring A → Popped A → Ring A
  left q (refused q') = q'
  left q (item x q') = q'
  left q _ = q

  unfoldable pub step : Ring A → Call A → Reply A × Ring A
  unfolding reply left
  step q (put x) = let (done, q') = push q x in (said done, q')
  step q get = let r = pop_timeout (wait_failed q) q in (reply r, left q r)
  step q wipe = (cleared, clear q)
  step q ask_full = (said (full q), q)
  step q ask_empty = (said (empty q), q)
  step q ask_size = (told q.size, q)

  unfoldable pub run : Ring A → List (Call A) → List (Reply A)
  run q [] = []
  run q (c ∷ cs) = let (r, q') = step q c in r ∷ run q' cs

  abbrev list_get : Option (A × List A) → Reply A × List A
  list_get none = (said false, [])
  list_get (some (x, xs)) = (gave x, xs)

  unfoldable pub list_step : ℕ → List A → Call A → Reply A × List A
  unfolding enqueue dequeue
  list_step cap xs (put x) = let (done, xs') = enqueue cap xs x in (said done, xs')
  list_step cap xs get = list_get (dequeue xs)
  list_step cap xs wipe = (cleared, [])
  list_step cap xs ask_full = (said (leb cap (length xs)), xs)
  list_step cap xs ask_empty = (said (length xs == 0), xs)
  list_step cap xs ask_size = (told (length xs), xs)

  unfoldable pub list_run : ℕ → List A → List (Call A) → List (Reply A)
  list_run cap xs [] = []
  list_run cap xs (c ∷ cs) = let (r, xs') = list_step cap xs c in r ∷ list_run cap xs' cs

module _ {ℓ} {A : Type ℓ} where
  pub pop_timeout-empty : (q : Ring A) → q.size ≡ 0 → pop_timeout (wait_failed q) q ≡ refused q
  unfolding pop_timeout
  pop_timeout-empty q e = ground arith

  pub pop_timeout-present : (w : Wake A) (q : Ring A) → 0 < q.size → pop_timeout w q ≡ take_front q
  unfolding pop_timeout
  pop_timeout-present w q h = ground arith

  max_size-push : (q : Ring A) (x : A) → (push q x).1.max_size ≡ q.max_size
  unfolding push
  max_size-push q x = ground arith

module _ {ℓ} {A : Type ℓ} (blank : A) where
  -- One call on the queue and on the list gives the same reply, and keeps them together.
  pub record Agrees (cap : ℕ) (out : Reply A × Ring A) (spec : Reply A × List A) : Type ℓ where
    pub replies : out.0 ≡ spec.0
    pub holds : contents blank out.1 ≡ spec.1
    pub valid : IsValid out.1
    pub same_cap : out.1.max_size ≡ cap

  get-Agrees :
      (q : Ring A) (xs : List A)
      → contents blank q ≡ xs
      → IsValid q
      → Agrees q.max_size
          (reply (pop_timeout (wait_failed q) q), left q (pop_timeout (wait_failed q) q))
          (list_get (dequeue xs))
  unfolding reply left dequeue
  get-Agrees q [] e v =
      let gone : q.size ≡ 0 = sym (length-contents blank q) ∙ ap length e in
      let refusal : pop_timeout (wait_failed q) q ≡ refused q = pop_timeout-empty q gone in
      rw refusal (record { replies = refl; holds = e; valid = v; same_cap = refl })
  get-Agrees q (x ∷ xs) e v =
      let there : q.size ≡ suc (length xs) = sym (length-contents blank q) ∙ ap length e in
      let (q', took, rest, v', cap) = take_front_refines blank q x xs v e in
      let success : pop_timeout (wait_failed q) q ≡ item x q' =
        pop_timeout-present (wait_failed q) q (omega arith) ∙ took in
      rw success (record { replies = refl; holds = rest; valid = v'; same_cap = cap })

  step-Agrees :
      (q : Ring A) (c : Call A)
      → IsValid q
      → Agrees q.max_size (step q c) (list_step q.max_size (contents blank q) c)
  unfolding step list_step
  step-Agrees q (put x) v =
      let e = push_refines blank q x v in
      record {
        replies = ap (λ p. said p.0) e;
        holds = ap (λ p. p.1) e;
        valid = push-IsValid x v;
        same_cap = max_size-push q x;
      }
  step-Agrees q get v = get-Agrees q (contents blank q) refl v
  step-Agrees q wipe v = record {
    replies = refl;
    holds = unfold clear in refl;
    valid = clear-IsValid v;
    same_cap = unfold clear in refl;
  }
  step-Agrees q ask_full v = record {
    replies = unfold full in ap said (ground (arith, length-contents blank q));
    holds = refl;
    valid = v;
    same_cap = refl;
  }
  step-Agrees q ask_empty v = record {
    replies = unfold empty in ap said (ground (arith, length-contents blank q));
    holds = refl;
    valid = v;
    same_cap = refl;
  }
  step-Agrees q ask_size v = record {
    replies = ap told (sym (length-contents blank q));
    holds = refl;
    valid = v;
    same_cap = refl;
  }

  -- No history of push, of pop with a timeout, of clear, full, empty and size from one thread tells a
  -- valid queue from the bounded list of its elements.
  pub run_refines :
      (q : Ring A) (cs : List (Call A))
      → IsValid q
      → run q cs ≡ list_run q.max_size (contents blank q) cs
  unfolding run list_run
  run_refines q [] v = refl
  run_refines q (c ∷ cs) v =
      let a = step-Agrees q c v in
      ap₂ ◌∷◌ a.replies
        (run_refines (step q c).1 cs a.valid ∙ ap₂ (λ n xs. list_run n xs cs) a.same_cap a.holds)
