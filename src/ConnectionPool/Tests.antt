-- ===== src/ConnectionPool/Tests.antt =====
-- The theorems about the connection pool at concrete inputs.
use linux_image_server.Base.{[], ◌∷◌}
use linux_image_server.ConnectionPool.{Pool}

-- Three connections, one of them out.
abbrev pool : Pool
pool = record { conn_list = 11 ∷ 12 ∷ []; max_conn = 3; cur_conn = 1; free_conn = 2 }
