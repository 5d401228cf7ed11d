-- ===== src/MemoryMap/Usable.antt =====
-- Which regions kernel/memory/memory_map.c keeps.
use kernel_v.Base.{
  ℕ, ◌+◌, ◌-◌, ◌≤◌, ◌<◌, ◌≡◌, refl, sym, ap, ◌∙◌, arith, List, [], ◌∷◌, ◌++◌, Bool-cases, inl, inr,
  ◌==◌, ltb, ltb→lt, ltb→le, suc, if◌then◌else◌, length, take, take-nil, append-nil, append_assoc,
  length-append, length-take,
}
use kernel_v.MemoryMap.{
  E820Entry, MemoryRegion, MapState, count, keep_entry, parse_from, print_entry,
  parse_and_print_e820_map,
}

-- The available entries of a map, as regions.
abbrev pub available : List E820Entry → List MemoryRegion
available [] = []
available (e ∷ map) =
    if e.type == 1
    then record { base = e.base; length = e.length; type = e.type } ∷ available map
    else available map

take_none : (xs ys : List MemoryRegion) (n : ℕ) → n ≡ 0 → take n xs ≡ take n ys
take_none xs ys n h = rw h refl

-- One entry, before a rest of which `later` are available.
keep_entry_lem :
    (e : E820Entry) (map : List E820Entry) (regions : List MemoryRegion)
    → length regions ≤ 32
    → let kept = keep_entry e regions in
      (length kept ≤ 32)
      × (kept ++ take (32 - length kept) (available map)
          ≡ regions ++ take (32 - length regions) (available (e ∷ map)))
unfolding keep_entry
keep_entry_lem e map regions h = elim (Bool-cases (e.type == 1)) [
  | inl usable ↦ elim (Bool-cases (ltb (length regions) 32)) [
    | inl room ↦ rw (usable, room) (stored (ltb→lt _ _ room))
    | inr full ↦
        rw (usable, full)
          (
            h,
            ap (λ t. regions ++ t)
                (take_none _ _ (32 - length regions) (omega (arith, ltb→le _ _ full))),
          )
  ]
  | inr other ↦ rw other (h, refl)
]
  where
    r : MemoryRegion
    r = record { base = e.base; length = e.length; type = e.type }

    stored :
        length regions < 32
        → (length (regions ++ (r ∷ [])) ≤ 32)
          × ((regions ++ (r ∷ [])) ++ take (32 - length (regions ++ (r ∷ []))) (available map)
              ≡ regions ++ take (32 - length regions) (r ∷ available map))
    stored room =
        let n = length-append regions (r ∷ []) in
        let more : 32 - length regions ≡ suc (32 - length (regions ++ (r ∷ []))) =
          omega (arith, n) in
        (
          omega (arith, n),
          rw more (
              append_assoc regions (r ∷ [])
                (take (32 - length (regions ++ (r ∷ []))) (available map))),
        )

parse_from_lem :
    (i : ℕ) (map : List E820Entry) (s : MapState)
    → count s ≤ 32
    → (parse_from i map s).usable_memory_region
      ≡ s.usable_memory_region ++ take (32 - count s) (available map)
unfolding parse_from
parse_from_lem i [] s h = sym (
    ap (λ t. s.usable_memory_region ++ t) (take-nil (32 - count s))
    ∙ append-nil s.usable_memory_region)
parse_from_lem i (e ∷ map) s h =
    let kept = keep_entry_lem e map s.usable_memory_region h in
    parse_from_lem (i + 1) map
      (record {
        usable_memory_region = keep_entry e s.usable_memory_region;
        console = print_entry i e s.console;
      })
      kept.0
    ∙ kept.1

parse_from_empty :
    (map : List E820Entry) (s : MapState)
    → s.usable_memory_region ≡ []
    → let regions = (parse_from 0 map s).usable_memory_region in
      (regions ≡ take 32 (available map)) × (length regions ≤ 32)
parse_from_empty map s empty =
    let none : count s ≡ 0 = ap length empty in
    let e : (parse_from 0 map s).usable_memory_region ≡ take 32 (available map) =
      parse_from_lem 0 map s (omega arith) ∙ rw empty refl in
    (e, omega (arith, ap length e, length-take 32 (available map)))

-- From an empty table, parsing keeps the available entries of the map in their order, the first 32
-- where there are more; the table is never overrun.
pub usable_memory_region-parse :
    (map : List E820Entry) (s : MapState)
    → s.usable_memory_region ≡ []
    → let s' = parse_and_print_e820_map map s in
      (s'.usable_memory_region ≡ take 32 (available map)) × (count s' ≤ 32)
unfolding parse_and_print_e820_map
usable_memory_region-parse map s empty = parse_from_empty map _ empty
