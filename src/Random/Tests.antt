-- ===== src/Random/Tests.antt =====
-- Ten bytes from seed 7
use projectmod.Random.{random_init, random_bytes}
use projectmod.Random.Permutation.{Gives, random_bytes_lem, random_init-IsPermutation}

random_bytes_lem_example : Gives 10 (random_bytes 10 (random_init 7))
random_bytes_lem_example = random_bytes_lem 10 (random_init 7) (λ e. random_init-IsPermutation 7)
