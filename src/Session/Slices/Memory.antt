-- ===== src/Session/Slices/Memory.antt =====
-- Go's slices over a memory of arrays, and what the operations on one slice do to its elements.
use kopilot.Base.{
  ℕ, suc, ◌-◌, List, [], ◌∷◌, ◌++◌, if◌then◌else◌, ltb, nat_eq, length, take, drop, remove_at, set,
}

-- The header of a slice. Only slices that begin where their array begins are needed.
pub record Slice : Type 0 where
  pub array : ℕ
  pub len : ℕ

-- The arrays, as lists of all their elements; those from `next` on are not allocated.
pub record Heap (A : Type 0) : Type 0 where
  pub next : ℕ
  pub cells : ℕ → List A

abbrev pub nil_slice : Slice
nil_slice = record { array = 0; len = 0 }

module _ {A : Type 0} where
  -- The elements of a slice.
  abbrev pub view : Slice → Heap A → List A
  view ss h = take ss.len (h.cells ss.array)

  abbrev pub overwrite : ℕ → List A → Heap A → Heap A
  overwrite r xs h = record h { cells = λ j. if nat_eq r j then xs else h.cells j }

  -- `[]T{}`.
  unfoldable pub make_empty : Heap A → Slice × Heap A
  make_empty h =
      (record { array = h.next; len = 0 }, overwrite h.next [] (record h { next = suc h.next }))

  -- `append(ss, s)`: in place, or if the array is full in a new one with `spare` behind.
  unfoldable pub append_one : (ℕ → List A) → A → Slice → Heap A → Slice × Heap A
  append_one spare s ss h =
      if ltb ss.len (length (h.cells ss.array))
      then (record ss { len = suc ss.len }, overwrite ss.array (set (h.cells ss.array) ss.len s) h)
      else (
        record { array = h.next; len = suc ss.len },
        overwrite h.next (view ss h ++ s ∷ spare (suc ss.len)) (record h { next = suc h.next }),
      )

  -- `append(ss[:i], ss[i+1:]...)`, always in place: the elements behind `i` move down by one, and
  -- the last one stays behind the new end.
  unfoldable pub delete_at : ℕ → Slice → Heap A → Slice × Heap A
  delete_at i ss h = (
    record ss { len = ss.len - 1 },
    overwrite ss.array (remove_at (view ss h) i ++ drop (ss.len - 1) (h.cells ss.array)) h,
  )
