-- ===== src/Tests/Pages.antt =====
-- A run of the page allocator that frees a page and is given it again.
use os0_kernel.Prelude.{
  ℕ, ◌+◌, ◌*◌, ◌%◌, ◌^◌, ◌<◌, ◌≤◌, ◌≡◌, refl, true, some, List, [], ◌∷◌, length, arith,
}
use os0_kernel.Libk.Stack.{Stack}
use os0_kernel.Memory.{Memory, mem_init, mem_alloc_start, page_size}
use os0_kernel.Memory.Machine.{Op, alloc, free, run, count, allocations}
use os0_kernel.Memory.Pages.{pages_exclusive, booted}

abbrev memory : Memory
memory = booted 1048576 (λ i. 0)

abbrev calls : List Op
calls = alloc ∷ alloc ∷ free 1 ∷ alloc ∷ []

few_calls : allocations calls ≤ 933887
unfolding allocations
few_calls = omega arith

memory_starts : mem_init 1048576 true (λ i. 0) ≡ some memory
unfolding mem_init
memory_starts = refl

pages_exclusive_example :
    let s = run (record { mem = memory; held = [] }) calls in
    ((p : ℕ) → count p s.held ≤ 1)
    × ((p : ℕ) → 0 < count p s.held → (mem_alloc_start ≤ p) × (p < 2 ^ 32) × (p % page_size ≡ 0))
    × ((freed : Stack) × (s.mem.page_stack ≡ some freed)
        × ((freed.size + length s.held) * page_size + mem_alloc_start ≡ s.mem.curraddr))
pages_exclusive_example = pages_exclusive 1048576 (λ i. 0) calls memory_starts few_calls
