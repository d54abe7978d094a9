-- ===== src/Arena/Tests.antt =====
-- An arena of one kilobyte, through an allocation.
use artmap.Prelude.{◌≡◌, refl, some, [], ◌∷◌, arith}
use artmap.Arena.{carve, Arena, handed, allocates, Run, stays, goes, new_arena}
use artmap.Arena.Disjoint.{Carved, carve-Carved, Sound, arena-Sound}

abbrev allocated : Arena
allocated = record {
  capacity = 1024;
  cursor = 84;
  regions = record { use_as = handed; start = 64; end = 84 } ∷ [];
}

carve_first : carve 64 1024 8 20 ≡ some (64, 84)
unfolding carve
carve_first = refl

carve-Carved_example : Carved 64 1024 8 20 64 84
carve-Carved_example = carve-Carved 64 1024 8 20 (omega arith) carve_first

allocated-Run : Run (new_arena 1024) allocated
unfolding new_arena
allocated-Run =
    goes (stays (new_arena 1024))
      (allocates 8 20 (new_arena 1024) (omega arith) (omega arith) carve_first)

arena-Sound_example : Sound allocated
arena-Sound_example = arena-Sound 1024 allocated-Run
