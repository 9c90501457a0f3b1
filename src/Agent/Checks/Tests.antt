-- ===== src/Agent/Checks/Tests.antt =====
-- A disk that is nearly full.
use monitra.Base.{ℕ, ◌≡◌, true, false, ltb}
use monitra.Agent.Checks.{Float, check_disk, stats}
use monitra.Agent.Checks.Honesty.{says_up, says_down, check_disk_lem}

-- Whole percentages in place of floating-point numbers.
abbrev whole : Float ℕ
whole = record { percentage = λ available blocks. available; lt = ltb; show = λ n. "n" }

nearly_full :
    let outcome = check_disk whole "/var" 10 4 (stats 5 100) in
    (says_down outcome ≡ true) × (says_up outcome ≡ false)
nearly_full = check_disk_lem whole "/var" 10 4 (stats 5 100)
