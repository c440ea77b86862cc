-- ===== src/Vector/Ring.antt =====
-- The positions of the ring: which slot of the buffer a position stands for.
use kubeflare.Prelude.{
  ℕ, ◌+◌, ◌-◌, ◌%◌, ◌<◌, ◌≡◌, arith, leb, ◌==◌, if◌then◌else◌, Bool-cases, inl, inr,
}
use native.Mathlib.Nat.{mod-eq_of_lt, mod_self}
use kubeflare.Vector.{ring_index}

-- The slot without the remainders.
abbrev pub slot_of : ℕ → ℕ → ℕ → ℕ
slot_of capacity head pos = if leb pos head then head - pos else head + capacity - pos

pub ring_index-slot_of :
    (capacity head pos : ℕ)
    → head < capacity
    → pos < capacity
    → ring_index capacity head pos ≡ slot_of capacity head pos
unfolding ring_index
ring_index-slot_of capacity head pos h p = elim (Bool-cases (leb pos head)) [
  | inl e ↦ rw e (mod-eq_of_lt (omega (arith, h)))
  | inr e ↦
      let small : pos - head < capacity = omega (arith, p) in
      let behind : head < pos = ground (arith, e) in
      rw (e, mod-eq_of_lt small) (ground (arith, behind, h, p))
]

pub slot_of-lt :
    (capacity head pos : ℕ)
    → head < capacity
    → pos < capacity
    → slot_of capacity head pos < capacity
slot_of-lt capacity head pos h p = ground (arith, h, p)

pub slot_of-injective :
    (capacity head i j : ℕ)
    → head < capacity
    → i < capacity
    → j < capacity
    → slot_of capacity head i ≡ slot_of capacity head j
    → i ≡ j
slot_of-injective capacity head i j h p q e = ground (arith, h, p, q, e)

-- The head moves to the next slot, and every position moves by one.
unfoldable pub next_head : ℕ → ℕ → ℕ
next_head capacity head = if head + 1 == capacity then 0 else head + 1

pub mod-next_head :
    (capacity head : ℕ) → head < capacity → (head + 1) % capacity ≡ next_head capacity head
unfolding next_head
mod-next_head capacity head h = elim (Bool-cases (head + 1 == capacity)) [
  | inl e ↦ let same : head + 1 ≡ capacity = ground (arith, e) in rw (e, same) (mod_self capacity)
  | inr e ↦ rw e (mod-eq_of_lt (ground (arith, h, e)))
]

pub slot_of-next_head :
    (capacity head pos : ℕ)
    → head < capacity
    → pos + 1 < capacity
    → slot_of capacity (next_head capacity head) (pos + 1) ≡ slot_of capacity head pos
unfolding next_head
slot_of-next_head capacity head pos h p = ground (arith, h, p)
