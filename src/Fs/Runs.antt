-- ===== src/Fs/Runs.antt =====
-- Runs of writes and of the calls on files.
use hyu_ele3021_operating_sy.Prelude.{
  ℕ, zero, suc, ◌+◌, ◌*◌, ◌<◌, ◌≡◌, refl, ◌≢◌, true, false, none, some, List, [], ◌∷◌, arith,
  length, get_or, replicate, pos,
}
use hyu_ele3021_operating_sy.Fs.Buffer.{bread}
use hyu_ele3021_operating_sy.Fs.Inode.{Inode}
use hyu_ele3021_operating_sy.Fs.Blocks.{Kern}
use hyu_ele3021_operating_sy.Fs.Bmap.{route}
use hyu_ele3021_operating_sy.Fs.Write.Bytes.{AreSmall}
use hyu_ele3021_operating_sy.Fs.Write.Layout.{Way, here, IsIndex, Laid}
use hyu_ele3021_operating_sy.Fs.Write.Back.{Stored, writei-Stored}
use hyu_ele3021_operating_sy.Fs.Samples.{
  test_sb, test_kern, test_meta, test_inode, test_place, test_files,
}
use hyu_ele3021_operating_sy.Fs.Links.{reply}
use hyu_ele3021_operating_sy.Fs.Run.{ok, unfinished}
use hyu_ele3021_operating_sy.Fs.Calls.Finish.All.{syscall-Ends}
use hyu_ele3021_operating_sy.Fs.Calls.{fd_inode, OpenFile, blank_file, User, System, or_fail}
use hyu_ele3021_operating_sy.Fs.Calls.Args.{fetchint, argint}
use hyu_ele3021_operating_sy.Fs.Calls.Table.{open_file, filedup, fileclose}
use hyu_ele3021_operating_sy.Fs.Calls.Descriptors.{
  argfd, find_fd, take_fd, fdalloc, dup_file, sys_dup, close_fd, sys_close,
}
use hyu_ele3021_operating_sy.Fs.Calls.Dispatch.{Call, call_dup, call_close, syscall, run_calls}
use hyu_ele3021_operating_sy.Fs.Calls.Balance.{uses, Balanced}
use hyu_ele3021_operating_sy.Fs.Calls.Balance.All.{run_calls-Balanced}

-- The three bytes that end behind the file's 700.
abbrev test_bytes : List ℕ
test_bytes = 72 ∷ (105 ∷ (33 ∷ []))

test_bytes-AreSmall : AreSmall test_bytes
test_bytes-AreSmall zero = omega arith
test_bytes-AreSmall (suc zero) = omega arith
test_bytes-AreSmall (suc (suc zero)) = omega arith
test_bytes-AreSmall (suc (suc (suc i))) = omega arith

test_file-Laid : Laid test_sb test_meta test_place 1024 33 test_kern
unfolding route bread
test_file-Laid = record { way = way; distinct = distinct; whole = whole; apart = apart }
  where
    way :
        (bn : ℕ)
        → bn * 512 < 1024
        → (i : ℕ) × (js : List ℕ) × (route bn ≡ some (i, js))
          × (get_or test_meta.addrs i 0 ≢ 0)
          × Way test_kern
              (IsIndex test_sb test_meta test_place 1024 33)
              (get_or test_meta.addrs i 0)
              js
              (test_place bn)
    way zero h = (0, [], refl, (λ e. omega (arith, e)), here)
    way (suc zero) h = (1, [], refl, (λ e. omega (arith, e)), here)
    way (suc (suc n)) h = absurd (omega (arith, h))

    distinct : (a b : ℕ) → a * 512 < 1024 → b * 512 < 1024 → test_place a ≡ test_place b → a ≡ b
    distinct zero zero h k e = refl
    distinct zero (suc zero) h k e = absurd (omega (arith, e))
    distinct (suc zero) zero h k e = absurd (omega (arith, e))
    distinct (suc zero) (suc zero) h k e = refl
    distinct zero (suc (suc b)) h k e = absurd (omega (arith, k))
    distinct (suc zero) (suc (suc b)) h k e = absurd (omega (arith, k))
    distinct (suc (suc a)) b h k e = absurd (omega (arith, h))

    whole : (bn : ℕ) → bn * 512 < 1024 → length (bread (test_place bn) test_kern.store) ≡ 128
    whole zero h = refl
    whole (suc zero) h = refl
    whole (suc (suc n)) h = absurd (omega (arith, h))

    apart : (bn : ℕ) → bn * 512 < 1024 → 33 ≢ test_place bn
    apart zero h = λ e. omega (arith, e)
    apart (suc zero) h = λ e. omega (arith, e)
    apart (suc (suc n)) h = absurd (omega (arith, h))

writei-Stored_example :
    (ip' : Inode) × (k' : Kern) × Stored test_sb test_place 699 test_bytes test_inode test_kern ip'
      k'
writei-Stored_example =
    writei-Stored test_sb test_place 1024 699 test_bytes test_inode test_kern (omega arith)
      (omega arith) (omega arith) (omega arith) (omega arith) test_bytes-AreSmall test_file-Laid
      (record { running = omega arith; in_header = omega arith; on_disk = omega arith })

-- A process whose descriptor 0 has an open file, and whose memory holds zeros.
abbrev test_user : User
test_user = record { mem = λ a. 0; sz = 4096; esp = 100 }

abbrev test_file : OpenFile
test_file = record blank_file { kind = fd_inode; ref = 1; readable = true }

abbrev test_system : System
test_system = record {
  sb = test_sb;
  files = test_files;
  ftable = test_file ∷ (blank_file ∷ []);
  pipes = [];
  free_pages = [];
  pid = 4;
  killed = false;
  cwd = 0;
  ofile = some 0 ∷ replicate 15 none;
  user = test_user;
}

-- `dup` and then `close` of descriptor 0.
abbrev test_calls : List (User × Call)
test_calls = (test_user, call_dup) ∷ ((test_user, call_close) ∷ [])

abbrev after_calls : System
after_calls = record test_system { ofile = none ∷ (some 0 ∷ replicate 14 none) }

calls_run : run_calls test_calls test_system ≡ ok (reply (pos 1) ∷ (reply (pos 0) ∷ [])) after_calls
unfolding run_calls syscall sys_dup sys_close argfd argint fetchint dup_file or_fail fdalloc find_fd
    take_fd filedup close_fd fileclose
calls_run = refl

test_system-Balanced : Balanced (λ _. 0) (λ _. 0) test_system
unfolding uses
test_system-Balanced = record { level = level; slots = refl }
  where
    level : (i : ℕ) → (open_file test_system i).ref + 0 ≡ uses i test_system.ofile + 0
    level zero = refl
    level (suc zero) = ground arith
    level (suc (suc i)) = ground arith

run_calls-Balanced_example : Balanced (λ _. 0) (λ _. 0) after_calls
run_calls-Balanced_example =
    run_calls-Balanced (λ _. 0) test_calls test_system after_calls
      (reply (pos 1) ∷ (reply (pos 0) ∷ [])) test_system-Balanced calls_run

-- A `dup` of the process above.
syscall-Ends_example : syscall call_dup test_system ≢ unfinished
syscall-Ends_example = syscall-Ends call_dup test_system
