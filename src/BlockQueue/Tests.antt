-- ===== src/BlockQueue/Tests.antt =====
-- The theorems about the queue at concrete inputs.
use linux_image_server.Base.{ℕ, ◌≡◌, some, [], ◌∷◌, refl, arith}
use linux_image_server.BlockQueue.{minus_one, at, Ring, resumed, create, pop, next}
use linux_image_server.BlockQueue.Inv.{IsValid}
use linux_image_server.BlockQueue.Refine.{contents}
use linux_image_server.BlockQueue.Run.{put, get, ask_full, run, list_run, run_refines}
use linux_image_server.BlockQueue.Wait.{IsSafe, pop-IsSafe}

-- Room for three, the oldest element at index 2, the newest at index 0.
abbrev wrapped : Ring ℕ
wrapped = record { array = 8 ∷ 0 ∷ 7 ∷ []; size = 2; max_size = 3; front = at 1; back = at 0 }

wrapped-IsValid : IsValid wrapped
unfolding next
wrapped-IsValid = record {
  storage = refl;
  room = omega arith;
  fits = omega arith;
  newest = omega arith;
  closes = refl;
}

run_refines_example :
    run wrapped (put 9 ∷ put 10 ∷ get ∷ ask_full ∷ [])
    ≡ list_run 3 (contents 0 wrapped) (put 9 ∷ put 10 ∷ get ∷ ask_full ∷ [])
run_refines_example = run_refines 0 wrapped (put 9 ∷ put 10 ∷ get ∷ ask_full ∷ []) wrapped-IsValid

pop-IsSafe_example : IsSafe (pop (resumed wrapped ∷ []) wrapped)
pop-IsSafe_example =
    pop-IsSafe 0 (resumed wrapped ∷ []) wrapped (wrapped-IsValid, tt) wrapped-IsValid

wrapped-contents : contents 0 wrapped ≡ 7 ∷ 8 ∷ []
unfolding next
wrapped-contents = refl

abbrev new_queue : Ring ℕ
new_queue = record {
  array = 0 ∷ 0 ∷ [];
  size = 0;
  max_size = 2;
  front = minus_one;
  back = minus_one;
}

new_queue-created : create 0 2 ≡ some new_queue
unfolding create
new_queue-created = refl
