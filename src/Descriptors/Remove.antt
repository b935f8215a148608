-- ===== src/Descriptors/Remove.antt =====
-- The result of `remove_fd` of src/common/common.cpp for the results that close documents.
use linux_image_server.Base.{◌≡◌, refl, ◌⊎◌, inl, inr, true}
use linux_image_server.CString.Decimal.{ℤ, pos, negsuc}
use linux_image_server.Descriptors.{remove_fd}

-- close returns 0 or -1, behind what epoll_ctl returns.
abbrev pub IsClose : ℤ × ℤ → Type 0
IsClose r = (r.1 ≡ pos 0) ⊎ (r.1 ≡ negsuc 0)

pub remove_fd-exits : (r : ℤ × ℤ) → IsClose r → remove_fd r ≡ true
unfolding remove_fd
remove_fd-exits (pos n, closed) (inl e) = rw e refl
remove_fd-exits (pos n, closed) (inr e) = rw e refl
remove_fd-exits (negsuc n, closed) doc = refl
