-- ===== src/Directory/Tests.antt =====
-- A directory with a file "a", a free slot and a directory "b".
use projectmod.Base.{◌≡◌, ◌≢◌, refl, ◌⊎◌, true, false, none, some, [], ◌∷◌}
use projectmod.Printf.Text.{codes}
use projectmod.Directory.{Dir, OpenInode, matches, has_room, dir_add, dir_readdir}
use projectmod.Directory.Names.{meaning}
use projectmod.Directory.Calls.{IsOpen, Changes, dir_add_lem}

abbrev two_names : Dir
two_names = record {
  entries =
      record { inode_sector = 7; name = codes "a"; in_use = true; is_dir = false }
      ∷ record { inode_sector = 8; name = codes "a"; in_use = false; is_dir = false }
      ∷ record { inode_sector = 9; name = codes "b"; in_use = true; is_dir = true }
      ∷ [];
  locked = false;
  pos = 1;
}

two_names-IsOpen : IsOpen two_names
unfolding matches
two_names-IsOpen = record {
  unlocked = refl;
  unique = (((λ u. refl), ((λ u. refl), tt)), (((λ u. cc), tt), (tt, tt)));
}

reads_on : (dir_readdir two_names).0 ≡ some (codes "b")
unfolding dir_readdir
reads_on = refl

dir_add_lem_example :
    ((meaning (codes "c") two_names.entries ≢ none)
      × (dir_add true (codes "c") 5 false two_names ≡ some (false, two_names)))
    ⊎ ((true ≡ false) × (dir_add true (codes "c") 5 false two_names ≡ some (false, two_names)))
    ⊎ ((meaning (codes "c") two_names.entries ≡ none)
        × ((d' : Dir) × (dir_add true (codes "c") 5 false two_names ≡ some (true, d'))
            × Changes (codes "c") (some (5, false)) two_names d'))
unfolding has_room
dir_add_lem_example = dir_add_lem true (codes "c") 5 false two_names two_names-IsOpen refl

abbrev once : OpenInode
once = record { open_cnt = 1; removed = false }
