-- ===== src/Sync/Tests.antt =====
-- The theorems of the lock at a schedule of two CPUs.
use os_rust.Shared.{ℕ, ◌≡◌, refl, List, [], ◌∷◌, length, ◌≤◌, Bool, true}
use os_rust.Sync.Spinlock.{start, step, run, spinning, advance}
use os_rust.Sync.Spinlock.Exclusion.{holds, IsSafe, run-IsSafe}
use os_rust.Sync.Spinlock.Progress.{spinning_takes}

-- CPU 0 takes the lock, and CPU 1 reaches the loop.
abbrev contended : List ℕ
contended = 0 ∷ 0 ∷ 0 ∷ 1 ∷ 1 ∷ 1 ∷ []

abbrev flags : ℕ → Bool
flags i = true

run-IsSafe_example : IsSafe flags (run (start flags) contended)
run-IsSafe_example = run-IsSafe flags contended

contended_spins : ((run (start flags) contended).cpus 1).place ≡ spinning true
unfolding run step start advance
contended_spins = refl

spinning_takes_example :
    (schedule : List ℕ) × (length schedule ≤ 2)
    × (holds ((run (run (start flags) contended) schedule).cpus 1) ≡ true)
spinning_takes_example =
    spinning_takes flags (run (start flags) contended) 1 true (run-IsSafe flags contended)
      contended_spins
