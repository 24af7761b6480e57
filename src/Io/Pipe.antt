-- ===== src/Io/Pipe.antt =====
-- Project01-MLFQ/pipe.c: a pipe, what `pipewrite` and `piperead` do to it from one `sleep` to the
-- next, and `pipeclose`. Bytes are numbers; the counters are of type `uint`. The
-- calls of `wakeup` are left out.
pub mod Fifo
pub mod Turns
use hyu_ele3021_operating_sy.Prelude.{
  ℕ, zero, suc, ◌+◌, ◌%◌, ◌^◌, Bool, true, false, not, ◌&&◌, ◌||◌, Option, none, some, List, [],
  ◌∷◌, ◌==◌, if◌then◌else◌, get_or, set, take,
}

-- `PIPESIZE`
abbrev pub pipesize : ℕ
pipesize = 512

pub record Pipe : Type 0 where
  pub data_buf : List ℕ
  pub nread : ℕ
  pub nwrite : ℕ
  pub readopen : Bool
  pub writeopen : Bool

-- `uint` arithmetic
abbrev pub uint_add : ℕ → ℕ → ℕ
uint_add a b = (a + b) % 2 ^ 32

-- The pipe that `pipealloc` makes in a page whose bytes are `page`.
unfoldable pub pipe_init : List ℕ → Pipe
pipe_init page = record {
  data_buf = take pipesize page;
  nread = 0;
  nwrite = 0;
  readopen = true;
  writeopen = true;
}

abbrev pub is_full : Pipe → Bool
is_full p = p.nwrite == uint_add p.nread pipesize

-- `p->data[p->nwrite++ % PIPESIZE] = c`
unfoldable pub push : ℕ → Pipe → Pipe
push c p = record p {
  data_buf = set p.data_buf (p.nwrite % pipesize) c;
  nwrite = uint_add p.nwrite 1;
}

-- `pipewrite` up to its next `sleep`: it is done, has failed, or sleeps with bytes left.
pub data Written : Type 0 where
  done : Pipe → Written
  failed : Pipe → Written
  sleeps : List ℕ → Pipe → Written

unfoldable pub pipewrite : Bool → List ℕ → Pipe → Written
unfolding push
pipewrite killed [] p = done p
pipewrite killed (c ∷ cs) p =
    let rest = pipewrite killed cs (push c p) in
    if is_full p then (if not p.readopen || killed then failed p else sleeps (c ∷ cs) p) else rest

-- The loop of `piperead`: the bytes read.
unfoldable pub read_loop : ℕ → Pipe → List ℕ × Pipe
read_loop zero p = ([], p)
read_loop (suc n) p =
    let (cs, q) = read_loop n (record p { nread = uint_add p.nread 1 }) in
    if p.nread == p.nwrite then ([], p) else (get_or p.data_buf (p.nread % pipesize) 0 ∷ cs, q)

-- `piperead` up to its next `sleep`.
pub data Received : Type 0 where
  got : List ℕ → Pipe → Received
  refused : Received
  waits : Received

unfoldable pub piperead : Bool → ℕ → Pipe → Received
unfolding read_loop
piperead killed n p =
    let (cs, q) = read_loop n p in
    if p.nread == p.nwrite && p.writeopen then (if killed then refused else waits) else got cs q

-- `none` when the page of the pipe is given back.
unfoldable pub pipeclose : Bool → Pipe → Option Pipe
pipeclose writable p =
    let q = (if writable then record p { writeopen = false } else record p { readopen = false }) in
    if not q.readopen && not q.writeopen then none else some q
