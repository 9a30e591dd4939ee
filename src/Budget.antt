-- ===== src/Budget.antt =====
-- `MemoryBudgetManager` of erii/core/budget.py: the sections of a prompt, each cut to its budget.
--
-- Budgets are natural numbers; the lengths are those of texts in code points.
pub mod Bounds
pub mod Tests
use Prim.Native.Nat.{zero, suc}
use e_r_i_i.Prelude.{ℕ, ◌-◌, String, List, [], ◌∷◌}
use e_r_i_i.Prelude.Equality.{leb, if◌then◌else◌}
use e_r_i_i.Prelude.Text.{text_length}

pub record MemoryBudgetManager : Type 0 where
  pub core_budget : ℕ
  pub timeline_budget : ℕ
  pub dynamic_budget : ℕ

-- `text[:n]`
unfoldable pub take_text : ℕ → String → String
take_text zero s = ""
take_text (suc n) String.[] = ""
take_text (suc n) (String.◌∷◌ c s) = String.◌∷◌ c (take_text n s)

-- `text[: a - b]`; a negative end counts from the end of the text
unfoldable pub slice_to : ℕ → ℕ → String → String
unfolding take_text text_length
slice_to a b s = if leb b a then take_text (a - b) s else take_text (text_length s - (b - a)) s

-- `s + t`
unfoldable pub append_text : String → String → String
append_text String.[] t = t
append_text (String.◌∷◌ c s) t = String.◌∷◌ c (append_text s t)

-- `_truncate_text`; the empty text is within every budget
unfoldable pub truncate_text : String → ℕ → String
unfolding slice_to append_text text_length
truncate_text text max_chars =
    if leb (text_length text) max_chars then text else append_text (slice_to max_chars 3 text) "..."

-- `"\n".join(lines)`
unfoldable pub join_lines : List String → String
unfolding append_text
join_lines [] = ""
join_lines (s ∷ []) = s
join_lines (s ∷ t ∷ ts) = append_text s (append_text "\n" (join_lines (t ∷ ts)))

pub record MemoryContext : Type 0 where
  pub core_memory : String
  pub timeline_context : String
  pub dynamic_memory : String

-- `allocate_memory_context`
unfoldable pub allocate_memory_context :
    MemoryBudgetManager → String → List String → String → MemoryContext
unfolding truncate_text join_lines
allocate_memory_context m core_memory timeline_entries dynamic_nodes_formatted = record {
  core_memory = truncate_text core_memory m.core_budget;
  timeline_context = truncate_text (join_lines timeline_entries) m.timeline_budget;
  dynamic_memory = truncate_text dynamic_nodes_formatted m.dynamic_budget;
}
