-- ===== src/Memory/Machine.antt =====
-- The memory together with the pages that the rest of the kernel holds, and how
-- the pages that were handed out are accounted for: as held, or as on the stack of freed pages.
use os0_kernel.Prelude.{
  ℕ, zero, suc, ◌+◌, ◌*◌, ◌%◌, ◌^◌, ◌≤◌, ◌<◌, ◌≡◌, refl, ◌∙◌, ap, none, some, List, [], ◌∷◌, arith,
  ◌==◌, if◌then◌else◌, length, get_elem?,
}
use os0_kernel.Libk.Stack
use os0_kernel.Libk.Stack.{Stack}
use os0_kernel.Libk.Stack.Laws.{IsValid, contents, push_lem, pop_lem, pop-empty}
use os0_kernel.Libk.SortedArray.Remove.{erase_at}
use os0_kernel.Memory.{Memory, page_stack_nelem, page_size, mem_alloc_start, alloc_page, free_page}

-- What the rest of the kernel does with pages: it allocates one, or frees one of those it holds.
pub data Op : Type 0 where
  alloc : Op
  free : ℕ → Op

-- The memory, and the pages that the rest of the kernel holds.
pub record Machine : Type 0 where
  pub mem : Memory
  pub held : List ℕ

-- `free i` frees the page at index `i` of those held, and does nothing where there is none.
unfoldable pub step : Machine → Op → Machine
step s alloc = let (addr, m) = alloc_page s.mem in record { mem = m; held = addr ∷ s.held }
step s (free i) = elim (get_elem? s.held i) [
  | none ↦ s
  | some addr ↦ record { mem = free_page s.mem addr; held = erase_at s.held i }
]

unfoldable pub run : Machine → List Op → Machine
run s [] = s
run s (op ∷ ops) = run (step s op) ops

unfoldable pub count : ℕ → List ℕ → ℕ
count p [] = 0
count p (x ∷ xs) = (if p == x then 1 else 0) + count p xs

unfoldable pub allocations : List Op → ℕ
allocations [] = 0
allocations (alloc ∷ ops) = suc (allocations ops)
allocations (free i ∷ ops) = allocations ops

-- The stack `s` of freed pages and the list of held pages, below the address `top`.
pub record Accounted (s : Stack) (held : List ℕ) (top : ℕ) : Type 0 where
  pub valid : IsValid s
  pub capacity : s.max ≡ page_stack_nelem
  pub once : (p : ℕ) → count p (contents s) + count p held ≤ 1
  pub known :
      (p : ℕ)
      → 0 < count p (contents s) + count p held
      → (mem_alloc_start ≤ p) × (p < top) × (p % page_size ≡ 0)
  pub all_there : (length (contents s) + length held) * page_size + mem_alloc_start ≡ top

pub record Inv (m : Machine) : Type 0 where
  pub stack : Stack
  pub placed : m.mem.page_stack ≡ some stack
  pub accounted : Accounted stack m.held m.mem.curraddr
  pub word : m.mem.curraddr < 2 ^ 32

pub count-erase_at :
    (p i q : ℕ) (xs : List ℕ)
    → get_elem? xs i ≡ some q
    → count p xs ≡ (if p == q then 1 else 0) + count p (erase_at xs i)
unfolding count
count-erase_at p i q [] e = ground arith
count-erase_at p zero q (x ∷ xs) e = ground arith
count-erase_at p (suc i) q (x ∷ xs) e = omega (arith, count-erase_at p i q xs e)

pub length-erase_at :
    (i q : ℕ) (xs : List ℕ) → get_elem? xs i ≡ some q → length xs ≡ suc (length (erase_at xs i))
length-erase_at i q [] e = ground arith
length-erase_at zero q (x ∷ xs) e = refl
length-erase_at (suc i) q (x ∷ xs) e = ap suc (length-erase_at i q xs e)

pub length-contents : (base : ℕ → ℕ) (n : ℕ) → length (Stack.Laws.cells base n) ≡ n
length-contents base zero = refl
length-contents base (suc n) = ap suc (length-contents base n)

module _ {s t : Stack} {held : List ℕ} {top : ℕ} (a : Accounted s held top) where
  -- A page that goes from the stack to the holders.
  pub Accounted-pop :
      {v : ℕ} → contents s ≡ v ∷ contents t → IsValid t → t.max ≡ s.max → Accounted t (v ∷ held) top
  unfolding count
  Accounted-pop {v} e valid m = record {
    valid = valid;
    capacity = m ∙ a.capacity;
    once = λ p. omega (arith, ap (count p) e, a.once p);
    known = λ p h. a.known p (omega (arith, ap (count p) e));
    all_there = omega (arith, ap length e, a.all_there);
  }

  -- A page that goes back to the stack.
  pub Accounted-push :
      {v : ℕ} (i : ℕ)
      → contents t ≡ v ∷ contents s
      → get_elem? held i ≡ some v
      → IsValid t
      → t.max ≡ s.max
      → Accounted t (erase_at held i) top
  unfolding count
  Accounted-push {v} i e there valid m = record {
    valid = valid;
    capacity = m ∙ a.capacity;
    once = λ p. omega (arith, ap (count p) e, a.once p, count-erase_at p i v held there);
    known = λ p h. a.known p (omega (arith, ap (count p) e, count-erase_at p i v held there));
    all_there = omega (arith, ap length e, a.all_there, length-erase_at i v held there);
  }

module _ {s : Stack} {held : List ℕ} {top : ℕ} (a : Accounted s held top) where
  -- A page that the counter hands out.
  pub Accounted-fresh : Accounted s (top ∷ held) (top + page_size)
  unfolding count
  Accounted-fresh = record {
    valid = a.valid;
    capacity = a.capacity;
    once = λ p. ground (arith, a.once p, a.known p);
    known = λ p h. ground (arith, a.known p, a.all_there);
    all_there = omega (arith, a.all_there);
  }
