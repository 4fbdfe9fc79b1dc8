-- ===== src/MyMalloc/Tests.antt =====
-- my_malloc/src/my_malloc.c on an empty heap.
use systems_programming_proj.Prelude.{◌+◌, ◌≡◌, ap, [], some, arith}
use mathlib.Core.Option.{some_inj}
use systems_programming_proj.MyMalloc.{Heap, Sbrk, my_malloc}
use systems_programming_proj.MyMalloc.Separate.{Ascending, Grows, Gives, my_malloc-Ascending}

-- Memory without a limit.
abbrev endless : Sbrk
endless n brk = some (brk, brk + n)

endless-Grows : Grows endless
endless-Grows = record {
  gives = λ n brk raw brk' small e.
      let first : brk ≡ raw = ap (λ p. p.0) (some_inj.0 e) in
      let second : brk + n ≡ brk' = ap (λ p. p.1) (some_inj.0 e) in
      (omega (arith, first), omega (arith, first, second));
}

abbrev empty : Heap
empty = record { blocks = []; brk = 4096 }

my_malloc-Ascending_example :
    Gives 100 empty (my_malloc endless 100 empty)
    × Ascending 4096 (my_malloc endless 100 empty).1.blocks (my_malloc endless 100 empty).1.brk
my_malloc-Ascending_example =
    my_malloc-Ascending endless 4096 100 empty endless-Grows (omega arith) (omega arith)
