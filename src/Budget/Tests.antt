-- ===== src/Budget/Tests.antt =====
-- Small budgets.
use e_r_i_i.Prelude.{◌≡◌, ◌≤◌, refl, [], ◌∷◌, arith}
use e_r_i_i.Prelude.Text.{text_length}
use e_r_i_i.Budget.{MemoryBudgetManager, truncate_text, allocate_memory_context}
use e_r_i_i.Budget.Bounds.{allocate_memory_context_bounds}

abbrev manager : MemoryBudgetManager
manager = record { core_budget = 4; timeline_budget = 10; dynamic_budget = 3 }

allocate_memory_context_bounds_example :
    (text_length (allocate_memory_context manager "persona" ("a" ∷ "b" ∷ []) "nodes").core_memory
      ≤ 4)
    × (text_length
          (allocate_memory_context manager "persona" ("a" ∷ "b" ∷ []) "nodes").timeline_context
        ≤ 10)
    × (text_length
          (allocate_memory_context manager "persona" ("a" ∷ "b" ∷ []) "nodes").dynamic_memory
        ≤ 3)
allocate_memory_context_bounds_example =
    allocate_memory_context_bounds manager "persona" ("a" ∷ "b" ∷ []) "nodes" (omega arith)
      (omega arith) (omega arith)

truncate_example : truncate_text "persona" 5 ≡ "pe..."
unfolding truncate_text
truncate_example = refl

-- a budget of two
truncate_below_mark : truncate_text "persona" 2 ≡ "person..."
unfolding truncate_text
truncate_below_mark = refl
