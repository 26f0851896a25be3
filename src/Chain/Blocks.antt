-- ===== src/Chain/Blocks.antt =====
-- `splitUnits`: blocks of a fixed size that join to the text.
use go_load_balance.Prelude.{
  ℕ, zero, suc, ◌<◌, ◌≤◌, ◌≡◌, refl, sym, ap, ◌∙◌, List, [], ◌∷◌, ◌++◌, ltb, if◌then◌else◌, length,
  take, drop, arith, length-take, length-drop, take-append-drop, append_assoc, Bool-cases, inl, inr,
}
use go_load_balance.Chain.{Bytes, affinity_block_chars, split_loop, split_units}

-- Full blocks, then a last unit that is no longer than a block, and that is not empty behind a
-- block.
pub data IsSplit (block : ℕ) : Bytes → List Bytes → Type 0 where
  last : {text : Bytes} → length text ≤ block → IsSplit block text (text ∷ [])
  full :
      {text unit rest : Bytes} {units : List Bytes}
      → length unit ≡ block
      → 0 < length rest
      → text ≡ unit ++ rest
      → IsSplit block rest units
      → IsSplit block text (unit ∷ units)

module _ (block : ℕ) (pos : 0 < block) where
  split_loop-append :
      (fuel : ℕ) (units : List Bytes) (text : Bytes)
      → split_loop block fuel units text ≡ units ++ split_loop block fuel [] text
  unfolding split_loop
  split_loop-append zero units text = refl
  split_loop-append (suc fuel) units text = elim (Bool-cases (ltb block (length text))) [
    | inl long ↦ rw long (
        split_loop-append fuel (units ++ take block text ∷ []) (drop block text)
        ∙ append_assoc units (take block text ∷ []) _
        ∙ ap (◌++◌ units) (sym (split_loop-append fuel (take block text ∷ []) (drop block text))))
    | inr short ↦ rw short
  ]

  split_loop-IsSplit :
      (fuel : ℕ) (text : Bytes)
      → length text ≤ fuel
      → IsSplit block text (split_loop block fuel [] text)
  unfolding split_loop
  split_loop-IsSplit zero text h = last (omega arith)
  split_loop-IsSplit (suc fuel) text h = elim (Bool-cases (ltb block (length text))) [
    | inl long ↦
        rw (long, split_loop-append fuel (take block text ∷ []) (drop block text))
          (full {rest = drop block text} (ground (arith, length-take block text))
            (ground (arith, length-drop block text)) (sym (take-append-drop block text))
            (split_loop-IsSplit fuel (drop block text) (ground (arith, length-drop block text))))
    | inr short ↦ rw short (last (ground arith))
  ]

  -- More fuel than the text is long changes nothing.
  split_loop-fuel :
      (fuel more : ℕ) (units : List Bytes) (text : Bytes)
      → length text ≤ fuel
      → length text ≤ more
      → split_loop block fuel units text ≡ split_loop block more units text
  unfolding split_loop
  split_loop-fuel zero zero units text h k = refl
  split_loop-fuel zero (suc more) units text h k = ground arith
  split_loop-fuel (suc fuel) zero units text h k = ground arith
  split_loop-fuel (suc fuel) (suc more) units text h k =
      elim (Bool-cases (ltb block (length text))) [
        | inl long ↦ rw long (
            split_loop-fuel fuel more (units ++ take block text ∷ []) (drop block text)
              (ground (arith, length-drop block text)) (ground (arith, length-drop block text)))
        | inr short ↦ rw short
      ]

-- One round of the loop, with the fuel of the rest.
pub split_units-round :
    (units : List Bytes) (text : Bytes)
    → split_units units text ≡ (
        if ltb affinity_block_chars (length text)
        then split_units
            (units ++ take affinity_block_chars text ∷ [])
            (drop affinity_block_chars text)
        else units ++ text ∷ [])
unfolding split_units split_loop
split_units-round units [] = ground arith
split_units-round units (c ∷ text) =
    elim (Bool-cases (ltb affinity_block_chars (length (c ∷ text)))) [
      | inl long ↦ rw long (
          split_loop-fuel affinity_block_chars (omega arith) (length text) _ _
            (drop affinity_block_chars (c ∷ text))
            (ground (arith, length-drop affinity_block_chars (c ∷ text))) (omega arith))
      | inr short ↦ rw short
    ]

pub split_units-append :
    (units : List Bytes) (text : Bytes) → split_units units text ≡ units ++ split_units [] text
unfolding split_units
split_units-append units text =
    split_loop-append affinity_block_chars (omega arith) (length text) units text

-- `splitUnits` cuts a text, after the units that are already there, into blocks of 8192 bytes that
-- join to the text: every unit but the last is a full block, and the last has 1 to 8192 bytes, or
-- is the whole text if that is empty.
pub split_units-IsSplit :
    (units : List Bytes) (text : Bytes)
    → (cut : List Bytes) × (split_units units text ≡ units ++ cut)
      × IsSplit affinity_block_chars text cut
unfolding split_units
split_units-IsSplit units text = (
  split_units [] text,
  split_units-append units text,
  split_loop-IsSplit affinity_block_chars (omega arith) (length text) text (omega arith),
)
