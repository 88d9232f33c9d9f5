-- ===== src/Libk/Stack.antt =====
-- libk/stack.c: the fixed-capacity stacks of pointers. `base` is the memory from `s_base` on, by
-- the index of the cell, and `ptr` the index that `s_ptr` points to.
pub mod Laws
use mathlib.Core.Option
use os0_kernel.Prelude.{
  ℕ, zero, suc, List, [], ◌∷◌, ◌+◌, ◌-◌, Bool, true, false, Option, none, some, ◌==◌, if◌then◌else◌,
  ltb,
}

pub record Stack : Type 0 where
  pub base : ℕ → ℕ
  pub ptr : ℕ
  pub size : ℕ
  pub max : ℕ

-- One cell of memory given anew.
abbrev pub write : (ℕ → ℕ) → ℕ → ℕ → ℕ → ℕ
write base i v j = if j == i then v else base j

-- `stack_place` over the memory `base`, once its header is allocated.
unfoldable pub place : (ℕ → ℕ) → ℕ → Stack
place base max = record { base = base; ptr = 0; size = 0; max = max }

-- `stack_new`, where `header` and `buffer` are what the two calls of `kmalloc` return.
pub new : Bool → Option (ℕ → ℕ) → ℕ → Option Stack
unfolding place
new header none max = none
new header (some base) max = if header then some (place base max) else none

-- `stack_push`; `none` is the result -1, of a null or a full stack.
unfoldable pub push : Option Stack → ℕ → Option Stack
push none elem = none
push (some stack) elem =
    if stack.size == stack.max
    then none
    else some (record stack {
      base = write stack.base stack.ptr elem;
      ptr = stack.ptr + 1;
      size = stack.size + 1;
    })

-- `stack_pop`: the element, 0 (NULL) from a null or an empty stack, and the stack left.
unfoldable pub pop : Option Stack → ℕ × Option Stack
pop none = (0, none)
pop (some stack) = if stack.size == 0 then (0, some stack) else (
  stack.base (stack.ptr - 1),
  some (record stack { ptr = stack.ptr - 1; size = stack.size - 1 }),
)

-- The loop of `stack_destroy`, with fuel: the elements that the given function is called for.
pub drain : ℕ → Option Stack → Option (List ℕ)
drain zero s = none
drain (suc fuel) s =
    let (elem, s') = pop s in
    let rest = drain fuel s' in if elem == 0 then some [] else Option.map (λ xs. elem ∷ xs) rest

-- `stack_destroy` with a function to call.
pub destroy : ℕ → Option Stack → Option (List ℕ)
destroy fuel none = some []
destroy fuel (some s) = drain fuel (some s)
