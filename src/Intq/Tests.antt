-- ===== src/Intq/Tests.antt =====
-- A queue of one byte at the end of the ring.
use cs162_group.Prelude.{◌≡◌, refl, false, none, [], ◌∷◌, ◌++◌, replicate, arith, Returns}
use cs162_group.Threads.{Kernel}
use cs162_group.Synch.System.{boot}
use cs162_group.Intq.{Intq, intq_empty, intq_full, put_byte, get_byte}
use cs162_group.Intq.Ring.{IsRing, contents, put-get}

abbrev around : Intq
around = record { not_full = none; not_empty = none; buf = replicate 64 5; head = 0; tail = 63 }

abbrev kernel : Kernel
kernel = (boot (λ s. 1)).kernel

around_test : contents around ≡ 5 ∷ []
around_test = refl

put-get_example :
    (intq_full around ≡ false
      → Returns
          (put_byte 9 around kernel)
          λ r. IsRing r.0 × (contents r.0 ≡ contents around ++ 9 ∷ []))
    × (intq_empty around ≡ false
        → Returns (get_byte around kernel) λ r. IsRing r.1 × (contents around ≡ r.0 ∷ contents r.1))
put-get_example =
    put-get around kernel 9 (record { sized = refl; head = omega arith; tail = omega arith }) tt tt
