-- ===== src/Manager/Slices.antt =====
-- Go slices. A slice is a window on a backing array, which other slices may share: `append` writes
-- behind the window where the array has room, and copies to a new array where it has none. How
-- large the new array is, is up to the runtime: `grow`, by the old capacity and the needed one.
pub mod Laws
use heat_operator.Base.{
  ℕ, zero, suc, ◌+◌, Bool, true, false, Option, none, some, List, [], ◌∷◌, ◌++◌, ltb, eqb, ◌&&◌,
  if◌then◌else◌,
}

pub record Slice : Type 0 where
  pub array : ℕ
  pub len : ℕ

-- The arrays: `room` is an array's capacity, and the arrays from `fresh` on are not there yet.
pub record Heap (A : Type 0) : Type 0 where
  pub fresh : ℕ
  pub room : ℕ → ℕ
  pub cell : ℕ → ℕ → Option A

-- the nil slice, on an array without room
abbrev pub nil_slice : Slice
nil_slice = record { array = 0; len = 0 }

abbrev pub empty_heap : {A : Type 0} → Heap A
empty_heap = record { fresh = 1; room = λ a. 0; cell = λ a i. none }

module _ {A : Type 0} where
  abbrev pub write : ℕ → ℕ → A → (ℕ → ℕ → Option A) → ℕ → ℕ → Option A
  write a i x cell b j = if eqb a b && eqb i j then some x else cell b j

  -- the cells of the first array below the length, at another address
  abbrev pub copy : ℕ → ℕ → ℕ → (ℕ → ℕ → Option A) → ℕ → ℕ → Option A
  copy from to len cell b j =
      if eqb to b then (if ltb j len then cell from j else none) else cell b j

  abbrev pub in_place : A → Slice → Heap A → Slice × Heap A
  in_place x s h = (record s { len = s.len + 1 }, record h { cell = write s.array s.len x h.cell })

  abbrev pub reallocated : (grow : ℕ → ℕ → ℕ) → A → Slice → Heap A → Slice × Heap A
  reallocated grow x s h =
      let a = h.fresh in
      (
        record { array = a; len = s.len + 1 },
        record {
          fresh = a + 1;
          room = λ b. if eqb a b then grow (h.room s.array) (s.len + 1) else h.room b;
          cell = write a s.len x (copy s.array a s.len h.cell);
        },
      )

  -- `cap(s) > len(s)`
  abbrev pub is_roomy : Slice → Heap A → Bool
  is_roomy s h = ltb s.len (h.room s.array)

  abbrev pub append_if : Bool → (grow : ℕ → ℕ → ℕ) → A → Slice → Heap A → Slice × Heap A
  append_if true grow = in_place
  append_if false grow = reallocated grow

  -- `append(s, x)`
  unfoldable pub append : (grow : ℕ → ℕ → ℕ) → A → Slice → Heap A → Slice × Heap A
  append grow x s h = append_if (is_roomy s h) grow x s h

  -- the first cells of an array
  abbrev pub cells : ℕ → ℕ → (ℕ → ℕ → Option A) → List (Option A)
  cells a zero cell = []
  cells a (suc n) cell = cells a n cell ++ cell a n ∷ []

  abbrev pub elements : Slice → Heap A → List (Option A)
  elements s h = cells s.array s.len h.cell
