-- ===== src/Locker/Tests.antt =====
-- Concrete runs of src/lock/locker.cpp, for a library of threads that has no condition variables.
use linux_image_server.Base.{ℕ, zero, suc, false, ◌≡◌, refl}
use linux_image_server.Locker.{Threads, Made, thrown, made, create_cond, wait_cond}

record Counts : Type 0 where
  mutexes : ℕ
  conds : ℕ

abbrev less : ℕ → ℕ
less zero = zero
less (suc n) = n

abbrev no_conds : Threads Counts
no_conds = record {
  sem_init = λ s. (0, s);
  sem_destroy = λ s. s;
  sem_wait = λ s. (0, s);
  sem_post = λ s. (0, s);
  mutex_init = λ s. (0, record s { mutexes = suc s.mutexes });
  mutex_destroy = λ s. record s { mutexes = less s.mutexes };
  mutex_lock = λ s. (0, s);
  mutex_unlock = λ s. (0, s);
  cond_init = λ s. (12, s);
  cond_destroy = λ s. record s { conds = less s.conds };
  cond_wait = λ s. (4, s);
  cond_signal = λ s. (0, s);
}

abbrev start : Counts
start = record { mutexes = 2; conds = 0 }

left_over : Made Counts → ℕ
left_over (thrown s) = s.mutexes
left_over (made s) = 0

mutex_is_released : left_over (create_cond no_conds start) ≡ 2
unfolding left_over create_cond
mutex_is_released = refl

interrupted : (wait_cond no_conds start).0 ≡ false
unfolding wait_cond
interrupted = refl
