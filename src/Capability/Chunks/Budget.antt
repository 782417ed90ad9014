-- ===== src/Capability/Chunks/Budget.antt =====
-- internal/capability/aggregate.go: what splitByByteBudget guarantees of its chunks.
use mathlib.Core.List.{append_assoc}
use inari_agent.Prelude.{
  ℕ, ◌+◌, ◌≤◌, ◌<◌, if◌then◌else◌, Bool-cases, ltb-false→le, List, [], ◌∷◌, ◌++◌, concat, length,
  All, ◌≡◌, ◌⊎◌, inl, inr, refl, ap, ◌∙◌, arith, ltb, ◌==◌,
}
use inari_agent.Capability.Chunks.{default_max_batch_bytes, fill, split_by_byte_budget}

module _ {ℓ} {A : Type ℓ} (size : A → ℕ) where
  abbrev total : List A → ℕ
  total [] = 0
  total (x ∷ xs) = size x + total xs

  -- A chunk is not empty, and within the limit unless it is a single capability.
  abbrev pub IsChunk : ℕ → List A → Type 0
  IsChunk limit chunk = (0 < length chunk) × ((total chunk ≤ limit) ⊎ (length chunk ≡ 1))

  total-append : (xs ys : List A) → total (xs ++ ys) ≡ total xs + total ys
  total-append [] ys = omega arith
  total-append (x ∷ xs) ys = omega (arith, total-append xs ys)

  concat-fill :
      (limit : ℕ) (cur : List A) (bytes : ℕ) (cs : List A)
      → concat (fill size limit cur bytes cs) ≡ cur ++ cs
  unfolding fill
  concat-fill limit [] bytes [] = refl
  concat-fill limit (x ∷ cur) bytes [] = refl
  concat-fill limit [] bytes (c ∷ cs) = concat-fill limit (c ∷ []) (bytes + size c) cs
  concat-fill limit (x ∷ cur) bytes (c ∷ cs) = elim (Bool-cases (ltb limit (bytes + size c))) [
    | inl e ↦ rw e (ap (λ (r : List A). (x ∷ cur) ++ r) (concat-fill limit (c ∷ []) (size c) cs))
    | inr n ↦ rw n (
        concat-fill limit ((x ∷ cur) ++ (c ∷ [])) (bytes + size c) cs
        ∙ append_assoc (x ∷ cur) (c ∷ []) cs)
  ]

  fill-IsChunk :
      (limit : ℕ) (cur : List A) (bytes : ℕ) (cs : List A)
      → bytes ≡ total cur
      → ((total cur ≤ limit) ⊎ (length cur ≤ 1))
      → All (IsChunk limit) (fill size limit cur bytes cs)
  unfolding fill
  fill-IsChunk limit [] bytes [] b h = tt
  fill-IsChunk limit (x ∷ cur) bytes [] b (inl h) = ((omega arith, inl h), tt)
  fill-IsChunk limit (x ∷ cur) bytes [] b (inr h) = ((omega arith, inr (omega arith)), tt)
  fill-IsChunk limit [] bytes (c ∷ cs) b h =
      fill-IsChunk limit (c ∷ []) (bytes + size c) cs (omega arith) (inr (omega arith))
  fill-IsChunk limit (x ∷ cur) bytes (c ∷ cs) b h = elim (Bool-cases (ltb limit (bytes + size c))) [
    | inl e ↦ rw e (
      (omega arith, closed h),
      fill-IsChunk limit (c ∷ []) (size c) cs (omega arith) (inr (omega arith)),
    )
    | inr n ↦ rw n (
        fill-IsChunk limit ((x ∷ cur) ++ (c ∷ [])) (bytes + size c) cs
          (omega (arith, total-append (x ∷ cur) (c ∷ [])))
          (inl (omega (arith, total-append (x ∷ cur) (c ∷ []), ltb-false→le _ _ n))))
  ]
    where
      closed :
          (total (x ∷ cur) ≤ limit) ⊎ (length (x ∷ cur) ≤ 1)
          → (total (x ∷ cur) ≤ limit) ⊎ (length (x ∷ cur) ≡ 1)
      closed (inl p) = inl p
      closed (inr p) = inr (omega arith)

  -- The chunks hold the capabilities, all of them and in their order, and each chunk is non-empty
  -- and within the byte limit (the default one for a limit of 0), or is a single capability.
  pub split_partitions :
      (caps : List A) (max_bytes : ℕ)
      → (concat (split_by_byte_budget size caps max_bytes) ≡ caps)
        × All
            (IsChunk (if max_bytes == 0 then default_max_batch_bytes else max_bytes))
            (split_by_byte_budget size caps max_bytes)
  unfolding split_by_byte_budget
  split_partitions caps max_bytes =
      (concat-fill _ [] 0 caps, fill-IsChunk _ [] 0 caps refl (inl (omega arith)))
