-- ===== src/Util/Tests.antt =====
-- The counter and the random numbers on a few values.
use os_rust.Shared.{◌+◌, ◌*◌, ◌^◌, ◌≡◌, refl}
use os_rust.Util.{read_tsc, random_u64}

one_mixed : random_u64 1 ≡ 129
unfolding random_u64
one_mixed = refl

-- The highest bit moves down by the two shifts to the right, alone and together.
top_mixed : random_u64 (2 ^ 63) ≡ 2 ^ 63 + 2 ^ 57 + 2 ^ 50 + 2 ^ 46 + 2 ^ 40 + 2 ^ 33
unfolding random_u64
top_mixed = refl

halves_joined : read_tsc 3 5 ≡ 3 * 2 ^ 32 + 5
unfolding read_tsc
halves_joined = refl
