-- ===== src/Latch/ChainExclusion.antt =====
-- The lock of a version chain: its holders and its death.
use artmap.Prelude.{ℕ, ◌%◌, ◌/◌, some, ◌≤◌, ◌≡◌, refl, true, none, inl, ◌⊎◌, arith}
use artmap.Latch.{
  chain_try, is_dead, kill, set_retired_link, ChainWorld, ChainStep, locks, drops, kills, links,
  ChainRun, rests, moves, new_chain_lock,
}

-- Free, locked by one holder, or dead and held by none.
abbrev ChainState : ChainWorld → Type 0
ChainState w =
    ((w.state ≡ 0) × (w.held ≡ 0))
    ⊎ ((w.state ≡ 1) × (w.held ≡ 1))
    ⊎ ((w.state % 4 ≡ 2) × (w.held ≡ 0))

try_is : (state : ℕ) {state' : ℕ} → chain_try state ≡ some state' → (state ≡ 0) × (state' ≡ 1)
unfolding chain_try
try_is state h = ground arith

link_is : (next : ℕ) → next % 4 ≡ 0 → set_retired_link next % 4 ≡ 2
unfolding set_retired_link is_dead
link_is next h = ground arith

dead_is : (state : ℕ) → is_dead state ≡ true → state / 2 % 2 ≡ 1
unfolding is_dead
dead_is state h = ground arith

is_dead_of : (state : ℕ) → state % 4 ≡ 2 → is_dead state ≡ true
unfolding is_dead
is_dead_of state h = ground arith

ChainStep-State : {w w' : ChainWorld} → ChainState w → ChainStep w w' → ChainState w'
unfolding kill
ChainStep-State s (locks w {state'} h) = let q = try_is w.state h in grind (arith, q.0, q.1)
ChainStep-State s (drops w others h) = ground arith
ChainStep-State s (kills w others h) = ground arith
ChainStep-State s (links w next d low) =
    let q = dead_is w.state d in let l = link_is next low in ground arith

ChainRun-State : {u w : ChainWorld} → ChainState u → ChainRun u w → ChainState w
ChainRun-State s (rests w) = s
ChainRun-State s (moves r t) = ChainStep-State (ChainRun-State s r) t

-- Whatever the threads do to a new chain lock, at most one of them holds it.
pub chain_mutual_exclusion : {w : ChainWorld} → ChainRun new_chain_lock w → w.held ≤ 1
chain_mutual_exclusion {w} r = let s = ChainRun-State {w = w} (inl (refl, refl)) r in ground arith

stays_dead :
    {u w : ChainWorld}
    → ChainState u
    → ChainRun u w
    → is_dead u.state ≡ true
    → is_dead w.state ≡ true
stays_dead s (rests w) h = h
stays_dead s (moves r t) h = dead_step (ChainRun-State s r) t (stays_dead s r h)
  where
    dead_step :
        {u w : ChainWorld}
        → ChainState u
        → ChainStep u w
        → is_dead u.state ≡ true
        → is_dead w.state ≡ true
    dead_step s (locks w h) d =
        let q = try_is w.state h in absurd (omega (arith, q.0, dead_is w.state d))
    dead_step s (drops w others h) d = let q = dead_is w.state d in ground arith
    dead_step s (kills w others h) d = let q = dead_is w.state d in ground arith
    dead_step s (links w next d' low) d = is_dead_of (set_retired_link next) (link_is next low)

-- A dead chain lock stays dead on every run, so no later attempt locks it.
pub dead_is_final :
    {u w : ChainWorld}
    → ChainRun new_chain_lock u
    → ChainRun u w
    → is_dead u.state ≡ true
    → (is_dead w.state ≡ true) × (chain_try w.state ≡ none)
unfolding chain_try
dead_is_final {u} {w} r s h =
    let d = stays_dead (ChainRun-State {w = u} (inl (refl, refl)) r) s h in
    (d, let q = dead_is w.state d in ground arith)
