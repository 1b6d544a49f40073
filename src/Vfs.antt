-- ===== src/Vfs.antt =====
-- chuckledb/vfs.cpp: the files of a folder by their names. A name is a type with its characters;
-- what the system says of the folder and `fopen` are parameters. `vfs_file_open` has no effect in
-- the source.
pub mod Names
mod Tests
use fossilizid.Base.{
  ℕ, Bool, ◌&&◌, true, false, not, Option, none, some, List, [], ◌∷◌, ◌==◌, if◌then◌else◌, Eq,
  insert_new, Ptr, null,
}

-- `describe` is what `new vfs` leaves there until it is set.
pub record Vfs (Name : Type 0) : Type 0 where
  pub describe : Ptr
  pub fexlen : List (Name × Ptr)
  pub variablelen : List (Name × Ptr)

abbrev pub new_vfs : {Name : Type 0} → Ptr → Vfs Name
new_vfs junk = record { describe = junk; fexlen = []; variablelen = [] }

-- What the system says of the path (`FindFirstFile` is asked for the path itself, so the entries
-- need not be what the folder holds): no folder; a folder that cannot be listed; or whether the
-- first entry is compressed, with the names of the entries.
pub data Folder (Name : Type 0) : Type 0 where
  absent : Folder Name
  unlisted : Folder Name
  listed : Bool → List Name → Folder Name

-- `char n i` is `filename[i]`.
module _ {Name : Type 0} ⦃e : Eq Name⦄ (char : Name → ℕ → ℕ) (fopen : Name → Ptr) where
  pub is_describe : Name → Bool
  is_describe n =
      char n 0 == b'd'
      && (char n 1 == b'e'
          && (char n 2 == b's'
              && (char n 3 == b'c'
                  && (char n 4 == b'r'
                      && (char n 5 == b'i' && (char n 6 == b'b' && char n 5 == b'e'))))))

  pub is_fexlen : Name → Bool
  is_fexlen n =
      char n 0 == b'f'
      && (char n 1 == b'e'
          && (char n 2 == b'x' && (char n 3 == b'l' && (char n 4 == b'e' && char n 5 == b'n'))))

  pub is_variablelen : Name → Bool
  is_variablelen n =
      char n 0 == b'v'
      && (char n 1 == b'a'
          && (char n 2 == b'r'
              && (char n 3 == b'i'
                  && (char n 4 == b'a'
                      && (char n 5 == b'b'
                          && (char n 6 == b'l'
                              && (char n 7 == b'e'
                                  && (char n 8 == b'l'
                                      && (char n 8 == b'e' && char n 8 == b'n')))))))))

  pub initvfs : Name → Vfs Name → Vfs Name
  initvfs n v = record {
    describe = if is_describe n then fopen n else v.describe;
    fexlen = if is_fexlen n then insert_new n (fopen n) v.fexlen else v.fexlen;
    variablelen = if is_variablelen n then insert_new n (fopen n) v.variablelen else v.variablelen;
  }

  -- The loop over the entries
  pub init_all : List Name → Vfs Name → Vfs Name
  init_all [] v = v
  init_all (n ∷ ns) v = init_all ns (initvfs n v)

  -- `junk` is what `describe` holds after `new vfs`.
  pub vfs_open : Ptr → Folder Name → Vfs Name
  vfs_open junk f = elim f [
    | absent ↦ new_vfs null
    | unlisted ↦ new_vfs null
    | listed compressed ns ↦ if compressed then new_vfs junk else init_all ns (new_vfs junk)
  ]
