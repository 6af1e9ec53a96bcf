-- ===== src/Country/Tests.antt =====
-- The properties at concrete networks.
use shadowvpn_ios.Prelude.{ℕ, ◌≤◌, ◌≡◌, ◌↔◌, refl, none, some, List, [], ◌∷◌, length, arith}
use shadowvpn_ios.Prelude.Result.{ok}
use shadowvpn_ios.Text.{codes}
use shadowvpn_ios.Chnroute.{Covers, sort_unstable}
use shadowvpn_ios.Country.{
  Cidr, Network, range_to_cidrs, cidrs_loop, gen_range_to_cidrs, gen_loop, zeros_loop, log2_loop,
  normalize_country, build_country_cidrs, select, merge_step, cidrs_of,
}
use shadowvpn_ios.Country.Blocks.{ranges_of, range_to_cidrs-Covers}
use shadowvpn_ios.Country.Termination.{range_to_cidrs-stops}

normalize_runs : normalize_country (codes "../x") ≡ codes "X"
unfolding normalize_country
normalize_runs = refl

-- 1.0.1.0 to 1.0.3.255 are 1.0.1.0/24 and 1.0.2.0/23.
two_blocks : range_to_cidrs 0x01000100 0x010003FF ≡ (0x01000100, 24) ∷ (0x01000200, 23) ∷ []
unfolding range_to_cidrs cidrs_loop zeros_loop log2_loop
two_blocks = refl

whole_space : range_to_cidrs 0 0xFFFFFFFF ≡ (0, 0) ∷ []
unfolding range_to_cidrs cidrs_loop zeros_loop log2_loop
whole_space = refl

-- The generator counts the span in 32 bits, so the whole space takes it two blocks.
whole_space_generated : gen_range_to_cidrs 0 0xFFFFFFFF ≡ (0, 1) ∷ (0x80000000, 1) ∷ []
unfolding gen_range_to_cidrs gen_loop zeros_loop log2_loop
whole_space_generated = refl

range_to_cidrs-Covers_example :
    Covers (ranges_of (range_to_cidrs 0x0A141E05 0x0A141FC8)) 0x0A141F00
    ↔ (0x0A141E05 ≤ 0x0A141F00) × (0x0A141F00 ≤ 0x0A141FC8)
range_to_cidrs-Covers_example = range_to_cidrs-Covers 0x0A141E05 0x0A141FC8 0x0A141F00 (omega arith)

abbrev networks : List Network
networks =
    ((0x01000100, 0x010001FF), some (codes "CN"))
    ∷ ((0x08080800, 0x080808FF), some (codes "US"))
    ∷ ((0x01000200, 0x010003FF), some (codes "cn"))
    ∷ ((5, 6), none)
    ∷ []

abbrev china : List Cidr
china = (0x01000100, 24) ∷ (0x01000200, 23) ∷ []

china_runs : build_country_cidrs networks (codes "CN") ≡ ok china
unfolding build_country_cidrs range_to_cidrs cidrs_loop zeros_loop log2_loop select merge_step
    cidrs_of sort_unstable
china_runs = refl

abbrev lowest : ℕ
lowest = 0

abbrev highest : ℕ
highest = 0xFFFFFFFF

abbrev address : ℕ
address = 0x08080808

range_to_cidrs-stops_example :
    (cidrs_loop 1000 0x0A141E05 0x0A141FC8 ≡ range_to_cidrs 0x0A141E05 0x0A141FC8)
    × (length (range_to_cidrs 0x0A141E05 0x0A141FC8) ≤ 452)
range_to_cidrs-stops_example =
    range_to_cidrs-stops 1000 0x0A141E05 0x0A141FC8 (omega arith) (omega arith)
