-- ===== src/Tests/Middleware.antt =====
-- Requests of one client.
use study_mate.Prelude.{◌≡◌, refl, true, false, some, [], ◌∷◌}
use study_mate.Exec.{ok, call}
use study_mate.Middleware.RateLimit.{
  Counter, served, refused, limit, incr, count_checked, expire, ttl,
}
use study_mate.Middleware.RateLimit.Windows.{calm, served_of, window_limit, lost_window}

window_limit_example : served_of 2 60 "rl:ip:a:auth" (100 ∷ 110 ∷ 159 ∷ []) (calm []) ≡ 2
window_limit_example =
    window_limit 2 60 "rl:ip:a:auth" 100 (110 ∷ 159 ∷ []) [] refl refl (refl, (refl, tt))

lost_window_example :
    served_of 2 60 "rl:ip:a:auth"
      (100 ∷ 110 ∷ 90000 ∷ 900000 ∷ [])
      (record { store = []; faults = false ∷ true ∷ [] })
    ≡ 2
lost_window_example = lost_window 2 60 "rl:ip:a:auth" 100 (110 ∷ 90000 ∷ 900000 ∷ []) [] refl refl

abbrev spent : Counter
spent = record { key = "rl:ip:a:auth"; count = 2; expires_at = some 160 }

refused_test : (limit 130 2 60 "rl:ip:a:auth" (calm (spent ∷ []))).0 ≡ ok (refused 30)
unfolding limit incr count_checked expire ttl call
refused_test = refl

new_window_test : (limit 160 2 60 "rl:ip:a:auth" (calm (spent ∷ []))).0 ≡ ok (served (some (2, 1)))
unfolding limit incr count_checked expire ttl call
new_window_test = refl
