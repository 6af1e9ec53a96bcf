-- ===== src/Memory/Tests.antt =====
-- The property at a concrete size: 40 MiB.
use shadowvpn_ios.Prelude.{◌+◌, ◌*◌, ◌^◌, ◌≡◌, refl, replicate}
use shadowvpn_ios.Memory.{as_f64}
use shadowvpn_ios.Memory.Reported.{TaskInfo}

abbrev task : TaskInfo
task = record { virtual_size = 2 ^ 40; resident = 40 * 2 ^ 20; rest = replicate 8 0 }

-- Above 53 digits the low ones are rounded to even.
as_f64_runs : as_f64 (2 ^ 54 + 3) ≡ 2 ^ 54 + 4
unfolding as_f64
as_f64_runs = refl
