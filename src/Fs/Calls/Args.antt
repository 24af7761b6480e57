-- ===== src/Fs/Calls/Args.antt =====
-- Project03-FileSystem/syscall.c: the arguments of a system call, read from the stack and the memory
-- of the process.
use hyu_ele3021_operating_sy.Prelude.{
  ℕ, zero, suc, ◌+◌, ◌-◌, ◌*◌, ◌%◌, ◌^◌, ◌&&◌, ◌||◌, Option, none, some, List, [], ◌∷◌, ltb, leb,
  ◌==◌, if◌then◌else◌, length, get_or,
}
use hyu_ele3021_operating_sy.Fs.Calls.{User}

unfoldable pub fetchint : User → ℕ → Option ℕ
fetchint u addr =
    if leb u.sz addr || ltb u.sz ((addr + 4) % 2 ^ 32)
    then none
    else some (
        u.mem addr
        + 256 * u.mem (addr + 1)
        + 65536 * u.mem (addr + 2)
        + 16777216 * u.mem (addr + 3))

-- The bytes before the first 0 from address `a` on, with `n` addresses to go.
unfoldable pub fetch_loop : User → ℕ → ℕ → Option (List ℕ)
fetch_loop u zero a = none
fetch_loop u (suc n) a =
    let rest = fetch_loop u n (a + 1) in
    if u.mem a == 0 then some [] else (elim rest [ none ↦ none | some cs ↦ some (u.mem a ∷ cs) ])

-- The string at `addr`, without its 0.
unfoldable pub fetchstr : User → ℕ → Option (List ℕ)
unfolding fetch_loop
fetchstr u addr = if leb u.sz addr then none else fetch_loop u (u.sz - addr) addr

unfoldable pub argint : User → ℕ → Option ℕ
unfolding fetchint
argint u n = fetchint u ((u.esp + 4 + 4 * n) % 2 ^ 32)

-- Does the block of `size` bytes at `addr` lie in the memory of the process? A size from 2 ^ 31 on is
-- a negative `int`.
unfoldable pub check_block : User → ℕ → Option ℕ → Option ℕ
check_block u size none = none
check_block u size (some addr) =
    if leb (2 ^ 31) size || leb u.sz addr || ltb u.sz ((addr + size) % 2 ^ 32)
    then none
    else some addr

unfoldable pub argptr : User → ℕ → ℕ → Option ℕ
unfolding argint check_block
argptr u n size = check_block u size (argint u n)

unfoldable pub argstr : User → ℕ → Option (List ℕ)
unfolding argint fetchstr
argstr u n = elim (argint u n) [ none ↦ none | some addr ↦ fetchstr u addr ]

-- The `n` bytes from `addr` on, and the memory with the bytes `cs` there.
unfoldable pub peek : User → ℕ → ℕ → List ℕ
peek u addr zero = []
peek u addr (suc n) = u.mem addr ∷ peek u (addr + 1) n

unfoldable pub poke : ℕ → List ℕ → User → User
poke addr cs u = record u {
  mem = λ a. if leb addr a && ltb a (addr + length cs) then get_or cs (a - addr) 0 else u.mem a;
}
