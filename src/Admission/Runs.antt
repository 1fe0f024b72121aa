-- ===== src/Admission/Runs.antt =====
-- A burst of CONNECTs at a limiter that counts.
use entmoot.Common.{ℕ, ◌-◌, ◌≡◌, refl, true, false, ◌==◌, if◌then◌else◌}
use entmoot.Admission.{Governor, new_admission, admit}
use entmoot.Admission.Bursts.{admits}

-- A limiter that lets a burst pass and then nothing.
abbrev pub counting : Governor
counting = record {
  Limiter = ℕ;
  direct = λ rate burst. burst;
  check = λ now l. if l == 0 then (false, 0) else (true, l - 1);
}

-- A burst below the rate is raised to the rate.
three_of_five : admits counting 5 0 (new_admission counting 3 1) ≡ 3
unfolding admits admit new_admission
three_of_five = refl

all_of_five : admits counting 5 0 (new_admission counting 0 9) ≡ 5
unfolding admits admit new_admission
all_of_five = refl
