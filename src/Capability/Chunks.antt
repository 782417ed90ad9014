-- ===== src/Capability/Chunks.antt =====
-- internal/capability/aggregate.go: splitByByteBudget. The size of a capability is proto.Size; sums
-- of sizes are far below the range of int.
pub mod Budget
use inari_agent.Prelude.{
  ℕ, ◌+◌, Bool, true, false, not, ◌&&◌, if◌then◌else◌, List, [], ◌∷◌, ◌++◌, ltb, ◌==◌,
}

abbrev default_max_batch_bytes : ℕ
default_max_batch_bytes = 2097152

abbrev pub is_nil {ℓ} : {A : Type ℓ} → List A → Bool
is_nil [] = true
is_nil (x ∷ xs) = false

module _ {ℓ} {A : Type ℓ} (size : A → ℕ) where
  -- The loop: the current chunk, its bytes, and the capabilities still to come.
  unfoldable fill : ℕ → List A → ℕ → List A → List (List A)
  fill max_bytes cur cur_bytes [] = if is_nil cur then [] else cur ∷ []
  fill max_bytes cur cur_bytes (c ∷ cs) =
      let flushed = fill max_bytes (c ∷ []) (size c) cs in
      let kept = fill max_bytes (cur ++ (c ∷ [])) (cur_bytes + size c) cs in
      if not (is_nil cur) && ltb max_bytes (cur_bytes + size c) then cur ∷ flushed else kept

  -- A limit that is not positive is the default.
  unfoldable pub split_by_byte_budget : List A → ℕ → List (List A)
  unfolding fill
  split_by_byte_budget caps max_bytes =
      fill (if max_bytes == 0 then default_max_batch_bytes else max_bytes) [] 0 caps
