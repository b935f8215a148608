-- ===== src/Log/Callers/Kept.antt =====
-- Which lines the interleaved calls of `write_log` keep, and when none is lost.
use mathlib.Core.List.{Perm}
use mathlib.Core.List.Perm
use linux_image_server.Base.{List}
use linux_image_server.Log.{Log}
use linux_image_server.Log.Callers.{Callers}
