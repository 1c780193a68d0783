-- ===== src/Shared/Redis/Tests.antt =====
-- Examples for the rate limiter: a limit of 2 in 60 seconds, on a server in memory.
use ai_document_analysis.Prelude.{ℕ, ◌<◌, ◌≡◌, refl, List, [], ◌∷◌, codes, arith}
use ai_document_analysis.Shared.Redis.Memory.{memory, empty}
use ai_document_analysis.Shared.Redis.Window.{
  allowed_count, allowed_count-window, allowed_count-lost_expire,
}

abbrev later_times : List (ℕ × ℕ)
later_times = (1000, 1001) ∷ (2000, 2001) ∷ (3000, 3001) ∷ []

two_of_four_pass : allowed_count memory 2 60 (codes "ip") ((0, 1) ∷ later_times) empty ≡ 2
two_of_four_pass =
    allowed_count-window memory 2 60 (codes "ip") empty 0 1 later_times refl refl
      (omega arith, (omega arith, (omega arith, tt)))

allowed_count-lost_expire_example :
    allowed_count memory 2 60
      (codes "ip")
      later_times
      (memory.incr empty 0 (codes "ratelimit:ip")).0
    < 2
allowed_count-lost_expire_example =
    allowed_count-lost_expire memory 2 60 (codes "ip") empty 0 later_times (omega arith) refl refl
