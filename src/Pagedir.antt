-- ===== src/Pagedir.antt =====
-- userprog/pagedir.c and threads/pte.h: page directories and page tables in memory. `palloc_get_page`
-- is the list of the pages that it will give, the null pointer when there are none left. The
-- invalidation of the processor's copies of entries is left out.
mod Entries
mod Valid
mod Map
mod Create
mod Calls
mod Clear
mod Tests
use projectmod.Base.{
  ℕ, zero, suc, ◌+◌, ◌-◌, ◌*◌, ◌/◌, ◌%◌, ◌^◌, Bool, true, false, not, ◌&&◌, ◌||◌, Option, none,
  some, List, [], ◌∷◌, ◌==◌, ltb, leb, if◌then◌else◌, ◌>>=◌, ◌>>◌, assert, bit_and, bit_or,
}
use projectmod.Palloc.{phys_base, pg_ofs, ptov}
use projectmod.Strings.{Memory, store}

-- Words of 32 bits by their addresses, and the pages that `palloc_get_page` will give.
pub record Tables : Type 0 where
  pub words : Memory
  pub pages : List ℕ

abbrev pub is_user_vaddr : ℕ → Bool
is_user_vaddr va = ltb va phys_base

unfoldable pub vtop : ℕ → Option ℕ
vtop va = assert (leb phys_base va) >> some (va - phys_base)

unfoldable pub pd_no : ℕ → ℕ
pd_no va = va / 2 ^ 22

unfoldable pub pt_no : ℕ → ℕ
pt_no va = va / 2 ^ 12 % 2 ^ 10

abbrev pub pte_addr : ℕ
pte_addr = 2 ^ 12 * (2 ^ 20 - 1)

abbrev pub pte_p : ℕ
pte_p = 1

abbrev pub pte_w : ℕ
pte_w = 2

abbrev pub pte_u : ℕ
pte_u = 4

abbrev pub pte_a : ℕ
pte_a = 0x20

abbrev pub pte_d : ℕ
pte_d = 0x40

-- `(entry & flag) != 0`
unfoldable pub has_flag : ℕ → ℕ → Bool
has_flag entry flag = not (bit_and entry flag == 0)

unfoldable pub pde_create : ℕ → Option ℕ
unfolding vtop
pde_create pt =
    assert (pg_ofs pt == 0)
    >> (vtop pt >>= λ paddr. some (bit_or (bit_or (bit_or paddr pte_u) pte_p) pte_w))

unfoldable pub pde_get_pt : ℕ → Option ℕ
unfolding has_flag ptov
pde_get_pt pde = assert (has_flag pde pte_p) >> ptov (bit_and pde pte_addr)

unfoldable pub pte_create_kernel : ℕ → Bool → Option ℕ
unfolding vtop
pte_create_kernel page writable =
    assert (pg_ofs page == 0)
    >> (vtop page >>= λ paddr. some (bit_or (bit_or paddr pte_p) (if writable then pte_w else 0)))

unfoldable pub pte_create_user : ℕ → Bool → Option ℕ
unfolding pte_create_kernel
pte_create_user page writable =
    pte_create_kernel page writable >>= λ entry. some (bit_or entry pte_u)

unfoldable pub pte_get_page : ℕ → Option ℕ
unfolding ptov
pte_get_page pte = ptov (bit_and pte pte_addr)

-- `palloc_get_page (PAL_ZERO)`: a page of 1024 words.
unfoldable pub clear_words : (n p : ℕ) → Memory → Memory
clear_words zero p m = m
clear_words (suc n) p m = clear_words n (p + 4) (store p 0 m)

unfoldable pub take_page : List ℕ → Memory → Option (ℕ × Tables)
take_page [] m = none
take_page (p ∷ rest) m = some (p, record { words = clear_words 1024 p m; pages = rest })

unfoldable pub next_page : Tables → Option (ℕ × Tables)
unfolding take_page
next_page s = take_page s.pages s.words

-- The address of the page directory's entry for `vaddr`.
unfoldable pub pde_of : (pd vaddr : ℕ) → ℕ
unfolding pd_no
pde_of pd vaddr = pd + 4 * pd_no vaddr

-- The entry for `vaddr` in the page table that a page directory's entry names.
unfoldable pub pte_in : (pde vaddr : ℕ) → Tables → Option (Option ℕ × Tables)
unfolding pde_get_pt pt_no
pte_in pde vaddr s = pde_get_pt (s.words pde) >>= λ pt. some (some (pt + 4 * pt_no vaddr), s)

-- The page for a table goes into the directory; without one the entry is not found.
unfoldable pub add_table :
    (pde vaddr : ℕ) → Tables → Option (ℕ × Tables) → Option (Option ℕ × Tables)
unfolding pde_create pte_in
add_table pde vaddr s none = some (none, s)
add_table pde vaddr s (some (pt, s')) =
    pde_create pt >>= λ e. pte_in pde vaddr (record s' { words = store pde e s'.words })

-- A page table that is missing is created if a page is given.
unfoldable pub create_table : (pde vaddr : ℕ) → Tables → Option (Option ℕ × Tables)
unfolding next_page add_table
create_table pde vaddr s = add_table pde vaddr s (next_page s)

-- `lookup_page` of a directory that is not null: the address of the entry, or `none` for the null
-- pointer. `none` outside is an ASSERT that fails.
unfoldable pub lookup_page : (pd vaddr : ℕ) (create : Bool) → Tables → Option (Option ℕ × Tables)
unfolding pde_of pte_in create_table
lookup_page pd vaddr create s =
    assert (not create || is_user_vaddr vaddr)
    >> (if s.words (pde_of pd vaddr) == 0
        then (if create then create_table (pde_of pd vaddr) vaddr s else some (none, s))
        else pte_in (pde_of pd vaddr) vaddr s)

-- The end of `pagedir_set_page`.
unfoldable pub install : (kpage : ℕ) → Bool → Option ℕ × Tables → Option (Bool × Tables)
unfolding has_flag pte_create_user
install kpage writable (none, s) = some (false, s)
install kpage writable (some pte, s) =
    assert (not (has_flag (s.words pte) pte_p))
    >> (pte_create_user kpage writable >>= λ e.
        some (true, record s { words = store pte e s.words }))

-- `pagedir_set_page` in a directory that is not that of the kernel.
unfoldable pub pagedir_set_page :
    (init_ram_pages pd upage kpage : ℕ) → Bool → Tables → Option (Bool × Tables)
unfolding vtop install
pagedir_set_page init_ram_pages pd upage kpage writable s =
    assert (pg_ofs upage == 0)
    >> (assert (pg_ofs kpage == 0)
        >> (assert (is_user_vaddr upage)
            >> (vtop kpage >>= λ paddr.
                assert (ltb (paddr / 2 ^ 12) init_ram_pages)
                >> (lookup_page pd upage true s >>= install kpage writable))))

-- The physical address that an entry names, of the byte at `uaddr`.
unfoldable pub page_of : (uaddr : ℕ) → Tables → Option ℕ → Option (Option ℕ)
unfolding has_flag pte_get_page
page_of uaddr s none = some none
page_of uaddr s (some pte) =
    if has_flag (s.words pte) pte_p
    then (pte_get_page (s.words pte) >>= λ page. some (some (page + pg_ofs uaddr)))
    else some none

unfoldable pub pagedir_get_page : (pd uaddr : ℕ) → Tables → Option (Option ℕ)
unfolding lookup_page page_of
pagedir_get_page pd uaddr s =
    assert (is_user_vaddr uaddr)
    >> (lookup_page pd uaddr false s >>= λ (pte, s'). page_of uaddr s' pte)

-- A change of the entry for a page, if the directory has a table for it.
unfoldable pub change_entry : (ℕ → ℕ) → Option ℕ × Tables → Tables
change_entry f (none, s) = s
change_entry f (some pte, s) = record s { words = store pte (f (s.words pte)) s.words }

-- `if ((*pte & PTE_P) != 0) *pte &= ~PTE_P;`
unfoldable pub absent : ℕ → ℕ
unfolding has_flag
absent e = if has_flag e pte_p then bit_and e (2 ^ 32 - 1 - pte_p) else e

unfoldable pub pagedir_clear_page : (pd upage : ℕ) → Tables → Option Tables
unfolding change_entry absent
pagedir_clear_page pd upage s =
    assert (pg_ofs upage == 0)
    >> (assert (is_user_vaddr upage)
        >> (lookup_page pd upage false s >>= λ r. some (change_entry absent r)))

-- `pagedir_is_dirty`, `pagedir_is_writable` and `pagedir_is_accessed`
unfoldable pub entry_has : (flag : ℕ) → (pd vpage : ℕ) → Tables → Option Bool
unfolding lookup_page has_flag
entry_has flag pd vpage s = lookup_page pd vpage false s >>= λ (pte, s').
    some (elim pte [ none ↦ false | some p ↦ has_flag (s'.words p) flag ])

-- `pagedir_set_dirty` and `pagedir_set_accessed`
unfoldable pub set_entry_flag : (flag : ℕ) → (pd vpage : ℕ) → Bool → Tables → Option Tables
unfolding lookup_page change_entry
set_entry_flag flag pd vpage on s = lookup_page pd vpage false s >>= λ r.
    some (change_entry (λ e. if on then bit_or e flag else bit_and e (2 ^ 32 - 1 - flag)) r)
