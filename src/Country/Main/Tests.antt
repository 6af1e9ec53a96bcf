-- ===== src/Country/Main/Tests.antt =====
-- The tool at a small database.
use shadowvpn_ios.Prelude.{◌≡◌, ◌↔◌, true, Any, arith}
use shadowvpn_ios.Text.{codes}
use shadowvpn_ios.Text.Print.{lines}
use shadowvpn_ios.Chnroute.{contains}
use shadowvpn_ios.Chnroute.Cidr.{from_lines}
use shadowvpn_ios.Country.Build.{Holds}
use shadowvpn_ios.Country.Cache.Samples.{networks, valid}
use shadowvpn_ios.Country.Main.{gen_cidrs, gen_text}
use shadowvpn_ios.Country.Main.Bundled.{contains-gen_text}

contains-gen_text_example :
    (contains
        (from_lines (lines (gen_text (codes "CN") (gen_cidrs networks (codes "CN")))))
        0x01000105
      ≡ true)
    ↔ Any (Holds (codes "CN") 0x01000105) networks
contains-gen_text_example = contains-gen_text networks (codes "CN") 0x01000105 valid (ground arith)
