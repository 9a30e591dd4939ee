-- ===== src/Budget/Bounds.antt =====
-- Budgets that hold the mark of a truncation are kept.
use Prim.Native.Nat.{zero, suc}
use e_r_i_i.Prelude.{◌≡◌, ℕ, ◌+◌, ◌-◌, ◌≤◌, String, List, inl, inr, arith}
use e_r_i_i.Prelude.Equality.{leb, Bool-cases}
use e_r_i_i.Prelude.Text.{text_length}
use e_r_i_i.Budget.{
  MemoryBudgetManager, take_text, slice_to, append_text, truncate_text, join_lines,
  allocate_memory_context,
}

take_text-length : (n : ℕ) (s : String) → text_length (take_text n s) ≤ n
unfolding take_text text_length
take_text-length zero s = omega arith
take_text-length (suc n) String.[] = omega arith
take_text-length (suc n) (String.◌∷◌ c s) = omega (arith, take_text-length n s)

append_text-length : (s t : String) → text_length (append_text s t) ≡ text_length s + text_length t
unfolding append_text text_length
append_text-length String.[] t = omega arith
append_text-length (String.◌∷◌ c s) t = omega (arith, append_text-length s t)

-- a truncation that has room for its mark
cut-length : (s : String) (m : ℕ) → 3 ≤ m → text_length (append_text (slice_to m 3 s) "...") ≤ m
unfolding slice_to text_length
cut-length s m h = elim (Bool-cases (leb 3 m)) [
  | inr e ↦ absurd (ground arith)
  | inl e ↦
      rw (e, slice_to)
        (omega
          (arith, append_text-length (take_text (m - 3) s) "...", take_text-length (m - 3) s, h))
]

truncate_text-length : (s : String) (m : ℕ) → 3 ≤ m → text_length (truncate_text s m) ≤ m
unfolding truncate_text
truncate_text-length s m h = elim (Bool-cases (leb (text_length s) m)) [
  | inl e ↦ rw (e, truncate_text) (ground arith)
  | inr e ↦ rw (e, truncate_text) (cut-length s m h)
]

-- Every section is within its budget, if each budget has room for the three dots of a truncation.
pub allocate_memory_context_bounds :
    (m : MemoryBudgetManager) (core : String) (timeline : List String) (dynamic : String)
    → 3 ≤ m.core_budget
    → 3 ≤ m.timeline_budget
    → 3 ≤ m.dynamic_budget
    → (text_length (allocate_memory_context m core timeline dynamic).core_memory ≤ m.core_budget)
      × (text_length (allocate_memory_context m core timeline dynamic).timeline_context
          ≤ m.timeline_budget)
      × (text_length (allocate_memory_context m core timeline dynamic).dynamic_memory
          ≤ m.dynamic_budget)
unfolding allocate_memory_context
allocate_memory_context_bounds m core timeline dynamic a b c = (
  truncate_text-length core m.core_budget a,
  truncate_text-length (join_lines timeline) m.timeline_budget b,
  truncate_text-length dynamic m.dynamic_budget c,
)
