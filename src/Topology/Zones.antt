-- ===== src/Topology/Zones.antt =====
-- `mm_zone_register` of mm/mm.c: merging adjacent zones loses and adds no page.
use oscar_kernel.Common.{ℕ, ◌+◌, ◌≡◌, refl, Bool, false, ◌&&◌, ◌||◌, List, [], ◌∷◌, ltb, leb, arith}
use oscar_kernel.Topology.{Zone, Node, register_zone, mm_zone_register}

abbrev pub in_zone : Zone → ℕ → Bool
in_zone z pfn = leb z.start_pfn pfn && ltb pfn (z.start_pfn + z.pfn_cnt)

abbrev pub covered : List Zone → ℕ → Bool
covered [] pfn = false
covered (z ∷ zs) pfn = in_zone z pfn || covered zs pfn

abbrev pub pages : List Zone → ℕ
pages [] = 0
pages (z ∷ zs) = z.pfn_cnt + pages zs

covered-register_zone :
    (zs : List Zone) (zone : Zone) (pfn : ℕ)
    → covered (register_zone zs zone) pfn ≡ (in_zone zone pfn || covered zs pfn)
unfolding register_zone
covered-register_zone [] zone pfn = refl
covered-register_zone (z ∷ zs) zone pfn = ground (arith, covered-register_zone zs zone pfn)

pages-register_zone :
    (zs : List Zone) (zone : Zone) → pages (register_zone zs zone) ≡ pages zs + zone.pfn_cnt
unfolding register_zone
pages-register_zone [] zone = omega arith
pages-register_zone (z ∷ zs) zone = ground (arith, pages-register_zone zs zone)

-- After `mm_zone_register` the zones of the node hold exactly the frames that they held before and
-- those of the new zone, their counts add up to the old sum and the new count, and the processors
-- are unchanged.
pub mm_zone_register_lem :
    (node : Node) (zone : Zone)
    → ((pfn : ℕ)
        → covered (mm_zone_register node zone).zone_list pfn
          ≡ (in_zone zone pfn || covered node.zone_list pfn))
      × (pages (mm_zone_register node zone).zone_list ≡ pages node.zone_list + zone.pfn_cnt)
      × ((mm_zone_register node zone).cpu_list ≡ node.cpu_list)
unfolding mm_zone_register
mm_zone_register_lem node zone =
    (covered-register_zone node.zone_list zone, pages-register_zone node.zone_list zone, refl)
