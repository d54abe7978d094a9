-- ===== src/Arena.antt =====
-- src/arena/mod.rs: the bump cursor of an arena and the chunks that threads carve from it.
--
-- Offsets are numbers below 2 ^ 64, and a checked sum fails at 2 ^ 64. `x & !(align - 1)` is
-- `x - x % align`, as an alignment is a power of two. The backing memory is not modelled.
pub mod Disjoint
mod Tests
use artmap.Prelude.{
  ℕ, zero, suc, ◌+◌, ◌-◌, ◌*◌, ◌/◌, ◌%◌, ◌^◌, ◌≤◌, ◌≡◌, min, max, Bool, true, false, ◌||◌, Option,
  none, some, List, [], ◌∷◌, ◌++◌, ltb, if◌then◌else◌,
}

abbrev pub arena_align : ℕ
arena_align = 64

abbrev pub max_chunk : ℕ
max_chunk = 16 * 1024

abbrev pub word_limit : ℕ
word_limit = 2 ^ 64

-- `(u32::MAX as usize) & !(ARENA_ALIGN - 1)`
abbrev pub max_arena_size : ℕ
max_arena_size = 2 ^ 32 - 64

-- The capacity of an arena, clamped and rounded down.
unfoldable pub clamped : ℕ → ℕ
clamped capacity = let c = min (max capacity arena_align) max_arena_size in c - c % arena_align

unfoldable pub checked_add : ℕ → ℕ → Option ℕ
checked_add a b = if ltb (a + b) word_limit then some (a + b) else none

abbrev pub round_down : ℕ → ℕ → ℕ
round_down align x = x - x % align

-- The end of a request behind an aligned start, if it fits below the limit.
unfoldable pub fit : ℕ → ℕ → Option ℕ → Option (ℕ × ℕ)
fit limit start none = none
fit limit start (some end) = if ltb limit end then none else some (start, end)

unfoldable pub fit_from : ℕ → ℕ → ℕ → Option ℕ → Option (ℕ × ℕ)
unfolding fit checked_add
fit_from limit align size none = none
fit_from limit align size (some x) =
    fit limit (round_down align x) (checked_add (round_down align x) size)

-- Where a request of `size` bytes lies behind `cur`: of the arena's cursor, or of a chunk.
unfoldable pub carve : ℕ → ℕ → ℕ → ℕ → Option (ℕ × ℕ)
unfolding fit_from checked_add
carve cur limit align size = fit_from limit align size (checked_add cur (align - 1))

unfoldable pub chunk_size : ℕ → ℕ → ℕ
chunk_size capacity cur = min max_chunk ((capacity - cur) / 32)

-- The chunk that a thread claims when it loses a race, large enough for its request.
unfoldable pub refill : ℕ → ℕ → ℕ → ℕ → Option (ℕ × ℕ)
unfolding carve chunk_size
refill capacity cur align size =
    if ltb (chunk_size capacity cur) (size + align)
    then none
    else carve cur capacity arena_align (chunk_size capacity cur)

-- A range that was handed out, or the rest of a thread's chunk.
pub data Use : Type 0 where
  handed chunk : Use

pub record Region : Type 0 where
  pub use_as : Use
  pub start : ℕ
  pub end : ℕ

pub record Arena : Type 0 where
  pub capacity : ℕ
  pub cursor : ℕ
  pub regions : List Region

unfoldable pub new_arena : ℕ → Arena
unfolding clamped
new_arena capacity = record { capacity = clamped capacity; cursor = arena_align; regions = [] }

-- A compare-exchange of the cursor, or a step of a thread on its own chunks.
pub data Step : Arena → Arena → Type 0 where
  allocates :
      (align size : ℕ) (a : Arena) {start end : ℕ}
      → 1 ≤ align
      → 1 ≤ size
      → carve a.cursor a.capacity align size ≡ some (start, end)
      → Step a (record a {
        cursor = end;
        regions = record { use_as = handed; start = start; end = end } ∷ a.regions;
      })
  claims :
      (align size : ℕ) (a : Arena) {start end : ℕ}
      → refill a.capacity a.cursor align size ≡ some (start, end)
      → Step a (record a {
        cursor = end;
        regions = record { use_as = chunk; start = start; end = end } ∷ a.regions;
      })
  takes :
      (align size : ℕ) (a : Arena) (before after : List Region) (cur limit : ℕ) {start end : ℕ}
      → 1 ≤ align
      → 1 ≤ size
      → a.regions ≡ before ++ record { use_as = chunk; start = cur; end = limit } ∷ after
      → carve cur limit align size ≡ some (start, end)
      → Step a (record a {
        regions =
            before
            ++ record { use_as = handed; start = start; end = end }
              ∷ record { use_as = chunk; start = end; end = limit }
              ∷ after;
      })
  abandons :
      (a : Arena) (before after : List Region) (cur limit : ℕ)
      → a.regions ≡ before ++ record { use_as = chunk; start = cur; end = limit } ∷ after
      → Step a (record a { regions = before ++ after })

pub data Run : Arena → Arena → Type 0 where
  stays : (a : Arena) → Run a a
  goes : {a b c : Arena} → Run a b → Step b c → Run a c
