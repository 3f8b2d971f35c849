-- ===== src/Pipe/Tests.antt =====
-- Small runs of a pipe.
use os_ass.Base.{◌≤◌, ◌≡◌, refl, arith, [], ◌∷◌, ◌++◌, true, false, length}
use os_ass.Pipe.{Pipe, init, pipewrite, piperead, piperead_copy, pipesize, returned}
use os_ass.Pipe.Queue.{IsPipe, contents, window}
use os_ass.Pipe.Fifo.{System, accepted, write, read, here, later, fifo}

-- one byte, just before and just after the counters wrap
abbrev wrapped : Pipe
wrapped = record { buf = λ i. i; nread = 0xffffffff; nwrite = 1; readopen = true; writeopen = true }

wrapped-IsPipe : IsPipe wrapped
wrapped-IsPipe = omega arith

wrapped-contents : contents wrapped ≡ 511 ∷ 0 ∷ []
unfolding contents window
wrapped-contents = refl

read_wrapped : (piperead false 5 wrapped).exit ≡ returned 2
unfolding piperead piperead_copy
read_wrapped = refl

-- `write(fd, "ab", 2)` and then `read(fd, buf, 1)`
abbrev after_write : System
after_write = record {
  pipe = (pipewrite false (97 ∷ 98 ∷ []) 0 (init (λ _. 0))).pipe;
  sent = [] ++ accepted false (97 ∷ 98 ∷ []) 0 (init (λ _. 0));
  got = [];
}

abbrev after_read : System
after_read = record {
  pipe = (piperead false 1 after_write.pipe).pipe;
  sent = after_write.sent;
  got = [] ++ (piperead false 1 after_write.pipe).bytes;
}

fifo_example :
    (after_read.sent ≡ after_read.got ++ contents after_read.pipe)
    × (length (contents after_read.pipe) ≤ pipesize)
fifo_example =
    fifo {junk = λ _. 0} {s = after_read}
      (later (later here (write false (97 ∷ 98 ∷ []) 0)) (read false 1))

got_first : (after_read.sent ≡ 97 ∷ 98 ∷ []) × (after_read.got ≡ 97 ∷ [])
unfolding accepted pipewrite piperead piperead_copy init
got_first = (refl, refl)
