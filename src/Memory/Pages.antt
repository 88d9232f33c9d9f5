-- ===== src/Memory/Pages.antt =====
-- Runs of the page allocator of kernel/memory.c, from `mem_init` on.
use os0_kernel.Prelude.{
  ℕ, ◌+◌, ◌*◌, ◌/◌, ◌%◌, ◌^◌, ◌≤◌, ◌<◌, ◌≡◌, refl, ◌∙◌, ap, true, some, List, [], ◌∷◌, inl, inr,
  arith, bit_and, length, ◌≢◌, get_elem?, Option-cases, subst,
}
use native.Mathlib.Decide.{ℕ_discrete}
use os0_kernel.Bits.Masks.{bit_and-page}
use os0_kernel.Libk.Stack
use os0_kernel.Libk.Stack.{Stack}
use os0_kernel.Libk.Stack.Laws.{contents, push_lem, pop_lem, pop-empty}
use os0_kernel.Memory.{
  Memory, page_stack_nelem, kernel_paddr, page_size, mem_alloc_start, mem_init, alloc_page,
  free_page,
}
use os0_kernel.Memory.Machine.{
  Op, alloc, free, Machine, step, run, count, allocations, Accounted, Inv, count-erase_at,
  length-erase_at, length-contents, Accounted-pop, Accounted-push, Accounted-fresh,
}

alloc_page-fresh :
    (m : Memory) (s : Stack)
    → m.page_stack ≡ some s
    → s.size ≡ 0
    → m.curraddr + page_size < 2 ^ 32
    → alloc_page m
      ≡ (m.curraddr, record m { page_stack = some s; curraddr = m.curraddr + page_size })
unfolding alloc_page
alloc_page-fresh m s e z room = ground (arith, pop-empty s z)

alloc_page-reused :
    (m : Memory) (s t : Stack) (v : ℕ)
    → m.page_stack ≡ some s
    → Stack.pop (some s) ≡ (v, some t)
    → v ≢ 0
    → alloc_page m ≡ (v, record m { page_stack = some t })
unfolding alloc_page
alloc_page-reused m s t v e popped ne = ground arith

alloc-Inv : (m : Machine) → Inv m → m.mem.curraddr + page_size < 2 ^ 32 → Inv (step m alloc)
unfolding step
alloc-Inv m inv room = elim (ℕ_discrete inv.stack.size 0) [
  | yes e ↦ rw (alloc_page-fresh m.mem inv.stack inv.placed e room) (record {
    stack = inv.stack;
    placed = refl;
    accounted = Accounted-fresh inv.accounted;
    word = room;
  })
  | no ne ↦
      let (v, t, eq, cs, valid, same) = pop_lem inv.stack inv.accounted.valid ne in
      rw (alloc_page-reused m.mem inv.stack t v inv.placed eq (page_pos v t cs)) (record {
        stack = t;
        placed = refl;
        accounted = Accounted-pop inv.accounted cs valid same;
        word = inv.word;
      })
]
  where
    page_pos : (v : ℕ) (t : Stack) → contents inv.stack ≡ v ∷ contents t → v ≢ 0
    page_pos v t cs z =
        omega (arith, inv.accounted.known v (unfold count in ground (arith, ap (count v) cs)))

curraddr-alloc :
    (m : Machine)
    → Inv m
    → m.mem.curraddr + page_size < 2 ^ 32
    → (step m alloc).mem.curraddr ≤ m.mem.curraddr + page_size
unfolding step alloc_page
curraddr-alloc m inv room = ground arith

free_page-kept :
    (m : Memory) (s t : Stack) (addr : ℕ)
    → m.page_stack ≡ some s
    → bit_and addr 0xfffff000 ≡ addr
    → Stack.push (some s) addr ≡ some t
    → free_page m addr ≡ record m { page_stack = some t }
unfolding free_page
free_page-kept m s t addr e whole pushed = ground arith

count-get_elem? : (p i : ℕ) (xs : List ℕ) → get_elem? xs i ≡ some p → 0 < count p xs
unfolding count
count-get_elem? p i xs e = ground (arith, count-erase_at p i p xs e)

free-Inv : (m : Machine) (i : ℕ) → Inv m → Inv (step m (free i))
unfolding step
free-Inv m i inv = elim (Option-cases (get_elem? m.held i)) [
  | inl e ↦ rw (e, step) inv
  | inr (addr, e) ↦
      let a = inv.accounted in
      let known : 0 < count addr (contents inv.stack) + count addr m.held =
        omega (arith, count-get_elem? addr i m.held e) in
      let whole : addr / 4096 * 4096 ≡ addr = omega (arith, a.known addr known) in
      let size_eq : length (contents inv.stack) ≡ inv.stack.size =
        length-contents inv.stack.base inv.stack.size in
      let (t, pushed, cs, valid, same) = push_lem inv.stack addr a.valid (
        omega
          (arith, size_eq, a.all_there, a.capacity, inv.word, length-erase_at i addr m.held e)) in
      rw
        (
          e,
          step,
          free_page-kept m.mem inv.stack t addr inv.placed
              (bit_and-page addr (omega (arith, a.known addr known, inv.word)) ∙ whole) pushed,
        )
        (record {
          stack = t;
          placed = refl;
          accounted = Accounted-push a i cs e valid same;
          word = inv.word;
        })
]

curraddr-free : (m : Machine) (i : ℕ) → (step m (free i)).mem.curraddr ≡ m.mem.curraddr
unfolding step free_page
curraddr-free m i = ground arith

run-Inv :
    (ops : List Op) (m : Machine)
    → Inv m
    → m.mem.curraddr + allocations ops * page_size < 2 ^ 32
    → Inv (run m ops)
unfolding run allocations
run-Inv [] m inv room = inv
run-Inv (alloc ∷ ops) m inv room =
    run-Inv ops (step m alloc) (alloc-Inv m inv (omega arith))
      (omega (arith, curraddr-alloc m inv (omega arith)))
run-Inv (free i ∷ ops) m inv room =
    run-Inv ops (step m (free i)) (free-Inv m i inv) (omega (arith, curraddr-free m i))

-- The memory as `mem_init` leaves it.
abbrev pub booted : ℕ → (ℕ → ℕ) → Memory
booted mem base = record {
  page_stack = some (Stack.place base page_stack_nelem);
  curraddr = mem_alloc_start;
  maxaddr = (mem * 1024 + kernel_paddr) % 2 ^ 32;
}

mem_init-booted :
    (mem : ℕ) (base : ℕ → ℕ) {m : Memory} → mem_init mem true base ≡ some m → booted mem base ≡ m
unfolding mem_init
mem_init-booted mem base e = ground arith

booted-Inv : (mem : ℕ) (base : ℕ → ℕ) → Inv (record { mem = booted mem base; held = [] })
unfolding count Stack.place
booted-Inv mem base = record {
  stack = Stack.place base page_stack_nelem;
  placed = refl;
  accounted = record {
    valid = omega arith;
    capacity = refl;
    once = λ p. omega arith;
    known = λ p h. absurd (omega arith);
    all_there = omega arith;
  };
  word = omega arith;
}

abbrev Held : Machine → Type 0
Held s =
    ((p : ℕ) → count p s.held ≤ 1)
    × ((p : ℕ) → 0 < count p s.held → (mem_alloc_start ≤ p) × (p < 2 ^ 32) × (p % page_size ≡ 0))
    × ((freed : Stack) × (s.mem.page_stack ≡ some freed)
        × ((freed.size + length s.held) * page_size + mem_alloc_start ≡ s.mem.curraddr))

Held-of_Inv : (s : Machine) → Inv s → Held s
Held-of_Inv s inv = (
  λ p. omega (arith, a.once p),
  λ p h. omega (arith, a.known p (omega (arith, h)), inv.word),
  (
    inv.stack,
    inv.placed,
    omega (arith, a.all_there, length-contents inv.stack.base inv.stack.size),
  ),
)
  where
    a : Accounted inv.stack s.held s.mem.curraddr
    a = inv.accounted

-- After `mem_init`, any sequence of allocations and of frees of held pages, with at most 933,887
-- allocations, keeps this: no page is held twice, every held page is page-aligned and lies between
-- MEM_ALLOC_START and 2^32, and every page that the counter has passed is either held or on the
-- stack of freed pages, so that none is lost.
pub pages_exclusive :
    (mem : ℕ) (base : ℕ → ℕ) (ops : List Op) {m : Memory}
    → mem_init mem true base ≡ some m
    → allocations ops ≤ 933887
    → let s = run (record { mem = m; held = [] }) ops in
      ((p : ℕ) → count p s.held ≤ 1)
      × ((p : ℕ) → 0 < count p s.held → (mem_alloc_start ≤ p) × (p < 2 ^ 32) × (p % page_size ≡ 0))
      × ((freed : Stack) × (s.mem.page_stack ≡ some freed)
          × ((freed.size + length s.held) * page_size + mem_alloc_start ≡ s.mem.curraddr))
pages_exclusive mem base ops {m} e few =
    subst (λ m. Held (run (record { mem = m; held = [] }) ops)) (mem_init-booted mem base e)
      (Held-of_Inv _ (
        run-Inv ops (record { mem = booted mem base; held = [] }) (booted-Inv mem base)
          (omega arith)))
