-- ===== src/Tests/Traces.antt =====
-- A trace of four requests.
use malloc_implementation.Base.{◌≡◌, refl, arith, List, [], ◌∷◌, none, some, false}
use malloc_implementation.Machine.{Machine}
use malloc_implementation.Naive
use malloc_implementation.Driver.Payload.{Blocks}
use malloc_implementation.Driver.Replay.{Allocator, TraceOp, alloc, free, realloc}
use malloc_implementation.Driver.Usage.{eval_mm_util}
use malloc_implementation.Driver.Speed.{eval_mm_speed}
use malloc_implementation.Driver.Speed.Agrees.{ending, eval_mm_util-eval_mm_speed}
use malloc_implementation.Driver.Trace.{Trace, read_trace}
use malloc_implementation.Driver.Trace.Print.{print_ops, read_trace-print_ops}

abbrev requests : List TraceOp
requests = alloc 0 100 ∷ realloc 0 200 ∷ free (some 0) ∷ free none ∷ []

abbrev header : Trace
header = record { weight = 1; num_ids = 1; num_ops = 4; data_bytes = 200; ops = [] }

read_trace-print_ops_example :
    read_trace header (print_ops requests) ≡ some (record header { ops = requests })
read_trace-print_ops_example =
    read_trace-print_ops header requests (omega arith) refl refl (omega arith)

abbrev naive : Allocator
naive = record {
  mm_init = Naive.mm_init;
  mm_malloc = Naive.malloc;
  mm_free = Naive.free;
  mm_realloc = Naive.realloc;
  mm_checkheap = λ line. Naive.mm_checkheap;
}

abbrev blank : Machine
blank = record {
  region = record {
    sparse = false;
    heap = 64;
    mem_brk = 64;
    mem_max_addr = 4096;
    bytes = λ a. 0;
    errno = 0;
    os_grants = λ n. false;
    os_calls = 0;
  };
  heap_start = 0;
  seg_list = λ i. 0;
}

abbrev no_blocks : Blocks
no_blocks = record { blocks = λ i. 0; block_sizes = λ i. 0; block_rand_base = λ i. 0 }

eval_mm_util-eval_mm_speed_example :
    ending (eval_mm_util naive requests no_blocks blank)
    ≡ eval_mm_speed naive requests no_blocks blank
eval_mm_util-eval_mm_speed_example = eval_mm_util-eval_mm_speed naive requests no_blocks blank
