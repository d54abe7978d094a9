-- ===== src/Latch/Tests.antt =====
-- Short runs of the latch and of the lock of a version chain.
use artmap.Prelude.{ℕ, ◌≤◌, ◌≡◌, refl, true, none, some, [], ◌∷◌, length, arith}
use artmap.Latch.{
  read_version, validate, try_upgrade, unlock, mark_obsolete, is_obsolete, World, enters, leaves,
  retires, Run, stays, goes, new_latch, chain_try, is_dead, kill, ChainWorld, locks, kills,
  ChainRun, rests, moves, new_chain_lock,
}
use artmap.Latch.Validation.{mutual_exclusion, read-validate, obsolete_is_permanent}
use artmap.Latch.ChainExclusion.{chain_mutual_exclusion, dead_is_final}

abbrev none_entered : ℕ
none_entered = 0

abbrev locked_world : World
locked_world = record { word = 1; guards = 0 ∷ [] }

upgrade_zero : try_upgrade 0 0 ≡ some 1
unfolding try_upgrade
upgrade_zero = refl

entered : Run new_latch locked_world 1
entered = goes (stays new_latch) (enters 0 new_latch upgrade_zero)

mutual_exclusion_example : length locked_world.guards ≤ 1
mutual_exclusion_example = mutual_exclusion entered

abbrev released_world : World
released_world = record { word = unlock 0; guards = [] }

released : Run new_latch released_world 1
released = goes entered (leaves 0 [] [] locked_world refl)

read_four : read_version (unlock 0) ≡ some 4
unfolding read_version unlock
read_four = refl

valid_four : validate (unlock 0) 4 ≡ true
unfolding validate unlock
valid_four = refl

read-validate_example : none_entered ≡ 0
read-validate_example =
    read-validate released (stays released_world) read_four valid_four (omega arith)

abbrev retired_world : World
retired_world = record { word = mark_obsolete 0; guards = [] }

retired : Run new_latch retired_world 1
retired = goes entered (retires 0 [] [] locked_world refl)

marked : is_obsolete (mark_obsolete 0) ≡ true
unfolding is_obsolete mark_obsolete
marked = refl

obsolete_is_permanent_example : (mark_obsolete 0 ≡ mark_obsolete 0) × (none_entered ≡ 0)
obsolete_is_permanent_example = obsolete_is_permanent retired (stays retired_world) marked

abbrev chain_held : ChainWorld
chain_held = record { state = 1; held = 1 }

chain_try_zero : chain_try 0 ≡ some 1
unfolding chain_try
chain_try_zero = refl

chain_entered : ChainRun new_chain_lock chain_held
chain_entered = moves (rests new_chain_lock) (locks new_chain_lock chain_try_zero)

chain_mutual_exclusion_example : chain_held.held ≤ 1
chain_mutual_exclusion_example = chain_mutual_exclusion chain_entered

abbrev chain_killed : ChainWorld
chain_killed = record { state = kill; held = 0 }

killed : ChainRun new_chain_lock chain_killed
killed = moves chain_entered (kills chain_held 0 refl)

kill-is_dead : is_dead kill ≡ true
unfolding is_dead kill
kill-is_dead = refl

dead_is_final_example : (is_dead kill ≡ true) × (chain_try kill ≡ none)
dead_is_final_example = dead_is_final killed (rests chain_killed) kill-is_dead
