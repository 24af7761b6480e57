-- ===== src/Io/Tests.antt =====
-- Runs of a pipe and of the string functions.
use hyu_ele3021_operating_sy.Prelude.{
  ◌++◌, ℕ, ◌≡◌, refl, ◌↔◌, ◌⊎◌, true, false, List, [], ◌∷◌, arith, if◌then◌else◌, set, take,
  replicate, pos,
}
use hyu_ele3021_operating_sy.Io.Pipe.{Pipe, pipewrite, piperead, got, refused, waits}
use hyu_ele3021_operating_sy.Io.Pipe.Fifo.{Holds, Sent, pipewrite-Sent, piperead-Holds}
use hyu_ele3021_operating_sy.Io.Pipe.Turns.{exchange, exchange-append}
use hyu_ele3021_operating_sy.Io.Strings.{strncmp}
use hyu_ele3021_operating_sy.Io.Strings.Copies.{text, strncmp_zero}

-- A pipe with two bytes, whose counters are about to wrap around.
abbrev test_pipe : Pipe
test_pipe = record {
  data_buf = set (set (replicate 512 0) 511 65) 0 66;
  nread = 4294967295;
  nwrite = 1;
  readopen = true;
  writeopen = true;
}

abbrev two_bytes : List ℕ
two_bytes = 65 ∷ (66 ∷ [])

test_pipe-Holds : Holds two_bytes test_pipe
test_pipe-Holds = record {
  storage = refl;
  nread_in = omega arith;
  room = omega arith;
  nwrite_at = refl;
  items = refl;
}

pipewrite-Sent_example : Sent two_bytes (67 ∷ []) false (pipewrite false (67 ∷ []) test_pipe)
pipewrite-Sent_example = pipewrite-Sent false (67 ∷ []) two_bytes test_pipe test_pipe-Holds

piperead-Holds_example :
    ((q : Pipe) × (piperead false 1 test_pipe ≡ got (65 ∷ []) q) × Holds (66 ∷ []) q)
    ⊎ ((two_bytes ≡ [])
        × (test_pipe.writeopen ≡ true)
        × (piperead false 1 test_pipe ≡ (if false then refused else waits)))
piperead-Holds_example = piperead-Holds false 1 two_bytes test_pipe test_pipe-Holds

strncmp_zero_example :
    (strncmp (104 ∷ (105 ∷ (0 ∷ []))) (104 ∷ (105 ∷ (106 ∷ []))) 2 ≡ pos 0)
    ↔ (take 2 (text (104 ∷ (105 ∷ (0 ∷ [])))) ≡ take 2 (text (104 ∷ (105 ∷ (106 ∷ [])))))
strncmp_zero_example = strncmp_zero (104 ∷ (105 ∷ (0 ∷ []))) (104 ∷ (105 ∷ (106 ∷ []))) 2

exchange-append_example : exchange 3 1 (67 ∷ []) test_pipe ≡ two_bytes ++ (67 ∷ [])
exchange-append_example =
    exchange-append 3 1 (67 ∷ []) two_bytes test_pipe (omega arith) test_pipe-Holds refl
      (omega arith)
