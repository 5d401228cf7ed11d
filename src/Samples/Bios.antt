-- ===== src/Samples/Bios.antt =====
-- A BIOS with a map of two entries, for the tests.
use kernel_v.Base.{ℕ, ◌==◌, refl, arith, List, [], ◌∷◌, some, inl, inr, if◌then◌else◌}
use kernel_v.Loader.{Answer, refuses, gives, Bios, smap}
use kernel_v.Loader.Map.{Serves}
use kernel_v.MemoryMap.{E820Entry}

abbrev pub two_entries : List E820Entry
two_entries =
    record { base = 0; length = 0x140000; type = 1; reserved = 0 }
    ∷ record { base = 0xFFFC0000; length = 0x40000; type = 2; reserved = 0 }
    ∷ []

-- The second call is made with an `ebx` of 7.
abbrev pub two_answers : ℕ → Answer
two_answers ebx =
    if ebx == 0
    then gives smap 7 (record { base = 0; length = 0x140000; type = 1; reserved = 0 })
    else (if ebx == 7
        then gives smap 0 (record { base = 0xFFFC0000; length = 0x40000; type = 2; reserved = 0 })
        else refuses)

abbrev pub bios : Bios
bios = record { extension = some 0xAA55; disk = some (λ x. x); e820 = two_answers }

pub served : Serves two_answers 0 two_entries
served = (
  record { base = omega arith; length = omega arith; type = omega arith; reserved = omega arith },
  (
    7,
    refl,
    inr (
      omega arith,
      (
        record {
          base = omega arith;
          length = omega arith;
          type = omega arith;
          reserved = omega arith;
        },
        (0, refl, inl (refl, refl)),
      ),
    ),
  ),
)
