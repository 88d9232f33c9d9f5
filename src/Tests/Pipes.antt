-- ===== src/Tests/Pipes.antt =====
-- Pipes at the ends of their buffers.
use os0_kernel.Prelude.{
  ℕ, ◌≡◌, refl, some, List, [], ◌∷◌, drop, replicate, length-replicate, arith, true,
}
use os0_kernel.Fs.Pipe.{
  Pipe, Write, write, write_in, copy_in, read, read_wait, read_out, copy_out, destroy_inode,
}
use os0_kernel.Fs.Pipe.Fifo.{IsValid, length-contents}
use os0_kernel.Fs.Pipe.Reads.{ReadAnswer, read-ReadAnswer}
use os0_kernel.Fs.Pipe.Writes.{WriteAnswer, write-WriteAnswer, write-faults}
use os0_kernel.Fs.Pipe.Runs.{Event, writes, reads, closes, Log, InOrder, run, step, run-InOrder}
use os0_kernel.Tests.Processes.{kernel, yield}

-- Five bytes were written and two read.
abbrev used : Pipe
used = record {
  readptr = 2;
  writeptr = 5;
  bytes = 1 ∷ 2 ∷ 3 ∷ 4 ∷ 5 ∷ replicate 16379 0;
  flags = 0;
}

used-IsValid : IsValid used
used-IsValid = record {
  room = omega (arith, length-replicate {A = ℕ} 16379 0);
  in_order = omega arith;
  within = omega arith;
}

write-WriteAnswer_example :
    WriteAnswer yield 2
      (kernel 3 0)
      used
      (6 ∷ 7 ∷ [])
      (write yield 2 (kernel 3 0) used (6 ∷ 7 ∷ []))
write-WriteAnswer_example =
    write-WriteAnswer yield 2 (kernel 3 0) used (6 ∷ 7 ∷ []) used-IsValid (omega arith)

read-ReadAnswer_example : ReadAnswer used 2 (read used 2)
read-ReadAnswer_example = read-ReadAnswer used 2 used-IsValid (omega arith)

-- A full pipe that nothing was read from.
abbrev full : Pipe
full = record { readptr = 0; writeptr = 16384; bytes = replicate 16384 0; flags = 0 }

full-IsValid : IsValid full
full-IsValid = record {
  room = length-replicate {A = ℕ} 16384 0;
  in_order = omega arith;
  within = omega arith;
}

write-faults_example : write yield 2 (kernel 3 0) full (6 ∷ []) ≡ Write.faults
write-faults_example =
    write-faults yield 2 (kernel 3 0) full (6 ∷ []) full-IsValid (omega arith) refl (omega arith)
      (omega arith) (omega (arith, length-contents full full-IsValid))

abbrev events : List Event
events = writes (6 ∷ 7 ∷ []) ∷ reads 3 ∷ closes true ∷ reads 9 ∷ []

-- 3, 4 and 5 are in the pipe. Then 6 and 7 are written, three bytes read, the write end closed, and
-- the rest read.
abbrev log : Log
log = record { pipe = used; sent = 3 ∷ 4 ∷ 5 ∷ []; received = [] }

log-InOrder : InOrder log
log-InOrder = record { valid = used-IsValid; order = refl }

abbrev at_end : Log
at_end = record {
  pipe = record {
    readptr = 7;
    writeptr = 7;
    bytes = 1 ∷ 2 ∷ 3 ∷ 4 ∷ 5 ∷ 6 ∷ 7 ∷ drop 2 (replicate 16379 0);
    flags = 6;
  };
  sent = 3 ∷ 4 ∷ 5 ∷ 6 ∷ 7 ∷ [];
  received = 3 ∷ 4 ∷ 5 ∷ 6 ∷ 7 ∷ [];
}

runs : run yield 2 (kernel 3 0) (some log) events ≡ some at_end
unfolding run step write write_in copy_in read read_wait read_out copy_out destroy_inode
runs = refl

run-InOrder_example : InOrder at_end
run-InOrder_example =
    run-InOrder yield 2 (kernel 3 0) events log
      (omega arith, (omega arith, (tt, (omega arith, tt)))) log-InOrder runs
