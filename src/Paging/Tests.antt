-- ===== src/Paging/Tests.antt =====
-- A map of eight entries of a megabyte each.
use tiny_bios.Prelude.{◌*◌, ◌≤◌, ◌≡◌, refl, arith, some, List, [], length, replicate}
use tiny_bios.Port.{Hardware}
use tiny_bios.Port.Triples.{Returns}
use tiny_bios.Cmos.{MemoryEntry}
use tiny_bios.Paging.{pages_for, init_paging, memory_size_in_megabytes, megabytes_loop}
use tiny_bios.Paging.Bounds.{IsMapped, init_paging-Returns}

abbrev eight : List MemoryEntry
eight = replicate 8 (record { addr = 0x100000; size = 0x100000; type = 1 })

-- Eight megabytes are two pages.
two_pages : pages_for eight ≡ 2
unfolding pages_for memory_size_in_megabytes megabytes_loop
two_pages = refl

abbrev silent : Hardware
silent log bits port = 0

init_paging-Returns_example :
    Returns
      (λ r after.
        (r.0 ≡ 0x3000) × (pages_for eight * 4 ≤ length eight) × IsMapped (pages_for eight) (r.1))
      (init_paging (λ _. some 0x1000) (λ _. some 0x2000) (λ _. some 0x3000) eight silent [])
init_paging-Returns_example =
    init_paging-Returns (λ _. some 0x1000) (λ _. some 0x2000) (λ _. some 0x3000) eight 0x1000 0x2000
      0x3000 silent [] (omega arith) refl refl refl
