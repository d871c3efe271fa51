-- ===== src/Manager/Slices/Laws.antt =====
-- What `append` does to the window that it extends, and which windows it leaves alone.
use heat_operator.Base.{
  ◌+◌, ℕ, zero, suc, ◌≤◌, ◌<◌, Bool, true, false, Option, some, [], ◌∷◌, ◌++◌, eqb, ◌≡◌, refl, sym,
  ap, ltb, ◌∙◌, ◌⊎◌, inl, inr, arith,
}
use heat_operator.Manager.Slices.{
  Slice, Heap, write, copy, append, append_if, is_roomy, cells, elements,
}

module _ {A : Type 0} (cell : ℕ → ℕ → Option A) where
  cells-write_beyond : (a b i n : ℕ) (x : A) → n ≤ i → cells a n (write b i x cell) ≡ cells a n cell
  cells-write_beyond a b i zero x h = refl
  cells-write_beyond a b i (suc n) x h = ground (arith, cells-write_beyond a b i n x (omega arith))

  cells-write_other :
      (a b i n : ℕ) (x : A) → eqb b a ≡ false → cells a n (write b i x cell) ≡ cells a n cell
  cells-write_other a b i zero x h = refl
  cells-write_other a b i (suc n) x h = ground (arith, cells-write_other a b i n x h)

  cells-copy : (a b n len : ℕ) → n ≤ len → cells b n (copy a b len cell) ≡ cells a n cell
  cells-copy a b zero len h = refl
  cells-copy a b (suc n) len h = ground (arith, cells-copy a b n len (omega arith))

  cells-copy_other :
      (a b c n len : ℕ) → eqb b c ≡ false → cells c n (copy a b len cell) ≡ cells c n cell
  cells-copy_other a b c zero len h = refl
  cells-copy_other a b c (suc n) len h = ground (arith, cells-copy_other a b c n len h)

module _ {A : Type 0} (grow : ℕ → ℕ → ℕ) (x : A) (s : Slice) (h : Heap A) where
  appended :
      (roomy : Bool)
      → elements (append_if roomy grow x s h).0 (append_if roomy grow x s h).1
        ≡ elements s h ++ some x ∷ []
  appended true =
      ground (arith, cells-write_beyond h.cell s.array s.array s.len s.len x (omega arith))
  appended false = ground (
    arith,
    cells-write_beyond (copy s.array h.fresh s.len h.cell) h.fresh h.fresh s.len s.len x
        (omega arith),
    cells-copy h.cell s.array h.fresh s.len s.len (omega arith),
  )

  pub elements-append :
      elements (append grow x s h).0 (append grow x s h).1 ≡ elements s h ++ some x ∷ []
  unfolding append
  elements-append = appended (is_roomy s h)

  module _ (t : Slice) (old : t.array < h.fresh) where
    others_kept :
        (roomy : Bool)
        → (t.len ≤ s.len) ⊎ (roomy ≡ false)
        → elements t (append_if roomy grow x s h).1 ≡ elements t h
    others_kept true (inl short) = cells-write_beyond h.cell t.array s.array s.len t.len x short
    others_kept true (inr full) = ground arith
    others_kept false apart =
        cells-write_other (copy s.array h.fresh s.len h.cell) t.array h.fresh s.len t.len x
          (ground arith)
        ∙ cells-copy_other h.cell s.array h.fresh t.array t.len s.len (ground arith)

    -- Another window stays as it is, unless it reaches into the room that `append` writes to.
    pub elements-append_other :
        (t.len ≤ s.len) ⊎ (is_roomy s h ≡ false) → elements t (append grow x s h).1 ≡ elements t h
    unfolding append
    elements-append_other = others_kept (is_roomy s h)

-- a window and the next cell
abbrev pub extended : Slice → Slice
extended s = record s { len = s.len + 1 }

module _ {A : Type 0} (grow : ℕ → ℕ → ℕ) (x : A) (s : Slice) (h : Heap A) where
  extended_if : (roomy : Bool) → roomy ≡ true → (append_if roomy grow x s h).0 ≡ extended s
  extended_if true e = refl
  extended_if false e = ground arith

  -- Where there is room, the result is a window on the same array.
  pub append-extended : is_roomy s h ≡ true → (append grow x s h).0 ≡ extended s
  unfolding append
  append-extended = extended_if (is_roomy s h)

  fresh_if :
      (roomy : Bool)
      → s.array < h.fresh
      → (append_if roomy grow x s h).0.array < (append_if roomy grow x s h).1.fresh
  fresh_if true old = old
  fresh_if false old = omega arith

  pub append-fresh : s.array < h.fresh → (append grow x s h).0.array < (append grow x s h).1.fresh
  unfolding append
  append-fresh = fresh_if (is_roomy s h)

  older_if :
      (roomy : Bool) (a : ℕ)
      → a < h.fresh
      → (a < (append_if roomy grow x s h).1.fresh)
        × ((append_if roomy grow x s h).1.room a ≡ h.room a)
  older_if true a old = (old, refl)
  older_if false a old = (omega arith, ground arith)

  -- Older arrays stay, with their capacity.
  pub append-older :
      (a : ℕ)
      → a < h.fresh
      → (a < (append grow x s h).1.fresh) × ((append grow x s h).1.room a ≡ h.room a)
  unfolding append
  append-older = older_if (is_roomy s h)

-- the cell that two appends to the same slice write, in the first's view
abbrev pub later_if {ℓ} : {A : Type ℓ} → Bool → A → A → A
later_if true first second = second
later_if false first second = first

module _ {A : Type 0} (grow : ℕ → ℕ → ℕ) (x y : A) (s : Slice) (h : Heap A)
    (old : s.array < h.fresh) where
  abbrev first : Slice × Heap A
  first = append grow x s h

  abbrev second : Slice × Heap A
  second = append grow y s first.1

  older : (s.array < first.1.fresh) × (first.1.room s.array ≡ h.room s.array)
  older = append-older grow x s h s.array old

  kept : elements s first.1 ≡ elements s h
  kept = elements-append_other grow x s h s old (inl (omega arith))

  pub second_elements : elements second.0 second.1 ≡ elements s h ++ some y ∷ []
  second_elements = elements-append grow y s first.1 ∙ ap (λ xs. xs ++ some y ∷ []) kept

  -- `append(s, x)` and `append(s, y)`: where the array of `s` has room, the second overwrites what
  -- the first wrote.
  pub first_elements :
      (roomy : Bool)
      → is_roomy s h ≡ roomy
      → elements first.0 second.1 ≡ elements s h ++ some (later_if roomy x y) ∷ []
  first_elements true roomy =
      ap (λ t. elements t second.1)
        (append-extended grow x s h roomy
          ∙ sym (append-extended grow y s first.1 (ap (ltb s.len) older.1 ∙ roomy)))
      ∙ second_elements
  first_elements false full =
      elements-append_other grow y s first.1 first.0 (append-fresh grow x s h old)
        (inr (ap (ltb s.len) older.1 ∙ full))
      ∙ elements-append grow x s h
