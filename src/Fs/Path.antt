-- ===== src/Fs/Path.antt =====
-- Project03-FileSystem/fs.c: `skipelem`. A path is the list of its bytes up to a 0, which stands for
-- the end of the list as well.
pub mod Elements
use hyu_ele3021_operating_sy.Prelude.{
  ℕ, ◌+◌, Bool, true, ◌||◌, Option, none, some, List, [], ◌∷◌, ◌++◌, leb, ◌==◌, if◌then◌else◌,
  length, take,
}

-- `DIRSIZ` of fs.h
abbrev pub dirsiz : ℕ
dirsiz = 14

-- `/`
abbrev pub slash : ℕ
slash = 47

unfoldable pub skip_slashes : List ℕ → List ℕ
skip_slashes [] = []
skip_slashes (c ∷ cs) = let rest = skip_slashes cs in if c == slash then rest else c ∷ cs

abbrev pub is_end : ℕ → Bool
is_end c = c == slash || c == 0

-- The bytes up to a slash or the end, and what is left.
unfoldable pub take_elem : List ℕ → List ℕ × List ℕ
take_elem [] = ([], [])
take_elem (c ∷ cs) =
    let (e, rest) = take_elem cs in if is_end c then ([], c ∷ cs) else (c ∷ e, rest)

-- The bytes that are written to `name`.
abbrev pub name_of : List ℕ → List ℕ
name_of e = if leb dirsiz (length e) then take dirsiz e else e ++ (0 ∷ [])

abbrev pub at_nul : List ℕ → Bool
at_nul [] = true
at_nul (c ∷ cs) = c == 0

-- The name and the rest of the path; `none` for 0.
unfoldable pub skipelem : List ℕ → Option (List ℕ × List ℕ)
unfolding skip_slashes take_elem
skipelem path =
    let p = skip_slashes path in
    let (e, rest) = take_elem p in if at_nul p then none else some (name_of e, skip_slashes rest)
