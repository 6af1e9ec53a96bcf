-- ===== src/Chnroute/Samples.antt =====
-- Small tables, and what lookups in them return.
use shadowvpn_ios.Prelude.{◌≡◌, refl, true, false, [], ◌∷◌}
use shadowvpn_ios.Chnroute.{
  ChnRoute, from_ranges, contains, binary_search, judge, search_loop, verdict, merge, sort_unstable,
  insert_range, merge_step,
}

abbrev pub abroad : ChnRoute
abroad = from_ranges ((0x01000100, 0x010001FF) ∷ [])

abbrev pub home : ChnRoute
home = from_ranges ((0x01020000, 0x0102FFFF) ∷ [])

pub abroad_runs : contains abroad 0x01020304 ≡ false
unfolding contains from_ranges binary_search judge search_loop verdict merge sort_unstable
    insert_range merge_step
abroad_runs = refl

pub home_runs : contains home 0x01020304 ≡ true
unfolding contains from_ranges binary_search judge search_loop verdict merge sort_unstable
    insert_range merge_step
home_runs = refl
