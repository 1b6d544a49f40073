-- ===== src/Vfs/Tests.antt =====
-- Folders, and the theorem at a concrete one.
use fossilizid.Base.{ℕ, ◌≡◌, refl, true, false, [], ◌∷◌, if◌then◌else◌, Eq, ◌==◌, ==_iff, get_or}
use fossilizid.Vfs.{is_describe, is_fexlen, vfs_open, absent}

instance ℕ-Eq : Eq ℕ
ℕ-Eq = record { beq = ◌==◌; beq_iff = ==_iff }

-- The name 0 is fexlen, the name 1 is describe.
abbrev char : ℕ → ℕ → ℕ
char n i =
    get_or
      (if n == 0
        then b'f' ∷ b'e' ∷ b'x' ∷ b'l' ∷ b'e' ∷ b'n' ∷ []
        else b'd' ∷ b'e' ∷ b's' ∷ b'c' ∷ b'r' ∷ b'i' ∷ b'b' ∷ b'e' ∷ [])
      i 0

abbrev fopen : ℕ → ℕ
fopen n = 100

opened : is_fexlen char fopen 0 ≡ true
unfolding is_fexlen
opened = refl

refused : is_describe char fopen 1 ≡ false
unfolding is_describe
refused = refl

no_folder : (vfs_open char fopen 9 absent).describe ≡ 0
unfolding vfs_open
no_folder = refl
