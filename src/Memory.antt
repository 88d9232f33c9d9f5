-- ===== src/Memory.antt =====
-- kernel/memory.c: physical pages, handed out from a stack of freed pages or, when that is empty,
-- from a counter that moves up.
pub mod Machine
pub mod Pages
use os0_kernel.Prelude.{
  ℕ, ◌+◌, ◌*◌, ◌%◌, ◌^◌, Bool, Option, none, some, List, bit_and, ltb, ◌==◌, if◌then◌else◌,
}
use os0_kernel.Libk.Stack
use os0_kernel.Libk.Stack.{Stack}

-- The static variables; `none` is a null `page_stack`.
pub record Memory : Type 0 where
  pub page_stack : Option Stack
  pub curraddr : ℕ
  pub maxaddr : ℕ

abbrev pub page_size : ℕ
page_size = 4096

abbrev pub mem_alloc_start : ℕ
mem_alloc_start = 0x1c000000

abbrev pub page_stack_nelem : ℕ
page_stack_nelem = 0x100000

abbrev pub min_memory : ℕ
min_memory = 524288

abbrev pub kernel_paddr : ℕ
kernel_paddr = 0x00100000

-- `mem_init` with `mem` KiB of upper memory; `allocated` says whether `stack_place` could allocate
-- its header, and `base` is the memory at PAGE_STACK_VADDR. `none` is a panic.
unfoldable pub mem_init : ℕ → Bool → (ℕ → ℕ) → Option Memory
mem_init mem allocated base =
    if ltb mem min_memory
    then none
    else if allocated
    then some (record {
      page_stack = some (Stack.place base page_stack_nelem);
      curraddr = mem_alloc_start;
      maxaddr = (mem * 1024 + kernel_paddr) % 2 ^ 32;
    })
    else none

-- `alloc_page`; an address on the stack that is 0 counts as none.
pub alloc_page : Memory → ℕ × Memory
alloc_page m =
    let (addr, stack) = Stack.pop m.page_stack in
    if addr == 0
    then (m.curraddr, record m { page_stack = stack; curraddr = (m.curraddr + page_size) % 2 ^ 32 })
    else (addr, record m { page_stack = stack })

-- The result of `stack_push` is not looked at.
keep_stack : Option Stack → Option Stack → Option Stack
keep_stack old none = old
keep_stack old (some new) = some new

pub free_page : Memory → ℕ → Memory
unfolding keep_stack
free_page m addr = record m {
  page_stack = keep_stack m.page_stack (Stack.push m.page_stack (bit_and addr 0xfffff000));
}
