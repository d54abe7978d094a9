-- ===== src/Latch.antt =====
-- src/latch.rs: the version latch and the lock of a version chain, as words that threads change.
--
-- A word is a number below 2 ^ 64 (a chain lock's below 2 ^ 32); its two low bits are flags, read
-- and set here by division and remainder. A guard is the version at which its holder acquired the
-- latch. Each access is one atomic step, as under sequential consistency: the fences, which order
-- the accesses of weaker memory, are not modelled.
pub mod Validation
pub mod ChainExclusion
mod Tests
use artmap.Prelude.{
  ℕ, ◌+◌, ◌-◌, ◌/◌, ◌%◌, ◌^◌, ◌≡◌, Bool, true, false, ◌||◌, not, Option, none, some, List, [], ◌∷◌,
  ◌++◌, ◌==◌, if◌then◌else◌,
}

abbrev pub version_step : ℕ
version_step = 4

abbrev pub word_size : ℕ
word_size = 2 ^ 64

-- `v & LOCK_BIT != 0`
abbrev pub has_lock : ℕ → Bool
has_lock v = v % 2 == 1

-- `v & OBSOLETE_BIT != 0`
abbrev pub has_obsolete : ℕ → Bool
has_obsolete v = v / 2 % 2 == 1

-- `v | LOCK_BIT`
abbrev pub with_lock : ℕ → ℕ
with_lock v = if has_lock v then v else v + 1

-- `v | OBSOLETE_BIT`
abbrev pub with_obsolete : ℕ → ℕ
with_obsolete v = if has_obsolete v then v else v + 2

unfoldable pub read_version : ℕ → Option ℕ
read_version word = if word % 4 == 0 then some word else none

unfoldable pub validate : ℕ → ℕ → Bool
validate word v = word == v

unfoldable pub is_obsolete : ℕ → Bool
is_obsolete word = has_obsolete word

-- The word that the compare-exchange of an upgrade at version `v` leaves, if it succeeds.
unfoldable pub try_upgrade : ℕ → ℕ → Option ℕ
try_upgrade word v =
    if not (v % 4 == 0) then none else if word == v then some (with_lock v) else none

-- The word that `unlock` and the drop of a guard store: `wrapping_add`.
unfoldable pub unlock : ℕ → ℕ
unlock v = (v + version_step) % word_size

unfoldable pub mark_obsolete : ℕ → ℕ
mark_obsolete v = with_obsolete v

-- One turn of the loop of `lock`: what it loads, and the word that its upgrade meets.
pub data Attempt : Type 0 where
  dead spins : Attempt
  holds : ℕ → ℕ → Attempt

unfoldable pub upgraded : ℕ → Option ℕ → Attempt
upgraded v none = spins
upgraded v (some word) = holds v word

unfoldable pub lock_turn : ℕ → ℕ → Attempt
unfolding try_upgrade upgraded
lock_turn loaded word =
    if has_obsolete loaded
    then dead
    else if has_lock loaded
    then spins
    else upgraded loaded (try_upgrade word loaded)

-- The latch with the guards that threads hold.
pub record World : Type 0 where
  pub word : ℕ
  pub guards : List ℕ

-- A step of some thread, with the number of critical sections it enters.
pub data Step : World → World → ℕ → Type 0 where
  enters :
      (v : ℕ) (w : World) {word' : ℕ}
      → try_upgrade w.word v ≡ some word'
      → Step w (record { word = word'; guards = v ∷ w.guards }) 1
  leaves :
      (v : ℕ) (before after : List ℕ) (w : World)
      → w.guards ≡ before ++ v ∷ after
      → Step w (record { word = unlock v; guards = before ++ after }) 0
  retires :
      (v : ℕ) (before after : List ℕ) (w : World)
      → w.guards ≡ before ++ v ∷ after
      → Step w (record { word = mark_obsolete v; guards = before ++ after }) 0

-- A run of steps, with the number of critical sections entered on it.
pub data Run : World → World → ℕ → Type 0 where
  stays : (w : World) → Run w w 0
  goes : {u w x : World} {k m : ℕ} → Run u w k → Step w x m → Run u x (k + m)

abbrev pub new_latch : World
new_latch = record { word = 0; guards = [] }

-- The lock of a version chain: 0 is free, 1 is locked, and 2 is dead, with a link above it.
abbrev pub chain_locked : ℕ
chain_locked = 1

abbrev pub chain_dead : ℕ
chain_dead = 2

-- The compare-exchange of a lock attempt.
unfoldable pub chain_try : ℕ → Option ℕ
chain_try state = if state == 0 then some chain_locked else none

unfoldable pub is_dead : ℕ → Bool
is_dead state = state / 2 % 2 == 1

unfoldable pub retired_link : ℕ → ℕ
retired_link state = state - state % 4

-- `CHAIN_DEAD | next`, for a link whose low bits are clear.
unfoldable pub set_retired_link : ℕ → ℕ
unfolding is_dead
set_retired_link next = if is_dead next then next else next + chain_dead

unfoldable pub kill : ℕ
kill = chain_dead

-- The lock and how many guards of it exist.
pub record ChainWorld : Type 0 where
  pub state : ℕ
  pub held : ℕ

pub data ChainStep : ChainWorld → ChainWorld → Type 0 where
  locks :
      (w : ChainWorld) {state' : ℕ}
      → chain_try w.state ≡ some state'
      → ChainStep w (record { state = state'; held = w.held + 1 })
  drops :
      (w : ChainWorld) (others : ℕ)
      → w.held ≡ others + 1
      → ChainStep w (record { state = 0; held = others })
  kills :
      (w : ChainWorld) (others : ℕ)
      → w.held ≡ others + 1
      → ChainStep w (record { state = kill; held = others })
  links :
      (w : ChainWorld) (next : ℕ)
      → is_dead w.state ≡ true
      → next % 4 ≡ 0
      → ChainStep w (record { state = set_retired_link next; held = w.held })

pub data ChainRun : ChainWorld → ChainWorld → Type 0 where
  rests : (w : ChainWorld) → ChainRun w w
  moves : {u w x : ChainWorld} → ChainRun u w → ChainStep w x → ChainRun u x

abbrev pub new_chain_lock : ChainWorld
new_chain_lock = record { state = 0; held = 0 }
