-- ===== src/HashTable/Tests.antt =====
-- The theorems on a table of numbers, of which those with the same last digit count as equal.
use projectmod.Base.{ℕ, ◌%◌, Bool, true, some, [], arith, ltb, if◌then◌else◌}
use projectmod.HashTable.{Hash, equals, hash_find, hash_insert, find_bucket, insert_elem}
use projectmod.HashTable.Valid.{Contract, IsValid}
use projectmod.HashTable.Calls.{
  Returns, or_new, hash_insert_lem, started-IsValid, started, started_held,
}
use projectmod.HashTable.Steps.{insert_elem_lem}

abbrev digit : ℕ → ℕ
digit x = x % 10

abbrev less : ℕ → ℕ → Bool
less x y = ltb (x % 10) (y % 10)

digits-Contract : Contract digit less
digits-Contract = record {
  irrefl = λ x. ground arith;
  trans = λ x y z p q. ground (arith, p, q);
  respects = λ x y p. ground (arith, p);
}

abbrev empty : Hash
empty = started digits-Contract (λ i. [])

-- The table with 27 in it
abbrev table : Hash
table = insert_elem empty (find_bucket digit empty 27) 27

table-IsValid : IsValid digit less table
table-IsValid =
    (insert_elem_lem digits-Contract (started-IsValid digits-Contract (λ i. [])) 27
      (λ x ne. absurd (ne (started_held digits-Contract (λ i. []) x)))).valid

hash_insert_lem_example :
    Returns digits-Contract
      (hash_find digit less table 37)
      (λ k.
        if equals digit less 37 k
        then some (or_new (hash_find digit less table 37) 37)
        else hash_find digit less table k)
      (hash_insert digit less true 37 table)
hash_insert_lem_example = hash_insert_lem digits-Contract table-IsValid true 37
