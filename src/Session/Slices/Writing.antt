-- ===== src/Session/Slices/Writing.antt =====
-- `append` on a slice of the map, against the list that the slice holds.
use kopilot.Base.{
  ℕ, suc, ◌-◌, ◌≡◌, ◌≢◌, sym, ap, subst, ◌∙◌, inl, inr, String, List, [], ◌∷◌, ◌++◌, true, false,
  some, lookup, ltb, Bool-cases, length, get_elem?, length-append, length-take, take-append,
  take-set, length-set, set, length-remove_at, remove_at, take, drop, arith,
}
use mathlib.Core.List.{append_assoc}
use kopilot.Session.{Network, SessionManager, sessions, store}
use kopilot.Session.Slices.{SliceManager, put_slice}
use kopilot.Session.Slices.Representing.{Represents, slice_of-found, written, Represents-written}
use kopilot.Session.Slices.Memory.{Slice, Heap, view, overwrite, append_one, delete_at}

module _ (n : Network) where
  open n use {Session}

  module _ (c : SliceManager n) (m : SessionManager n) (id : String) (rep : Represents n c m) where
    alone_of :
        (ss : Slice)
        → lookup id c.session_lists ≡ some ss
        → (j : String) (b : Slice) → ¬ (id ≡ j)
        → lookup j c.session_lists ≡ some b
        → b.array ≢ ss.array
    alone_of ss found j b other at e = other (rep.sound.apart id j ss b found at (sym e))

    pub shown :
        (ss : Slice) → lookup id c.session_lists ≡ some ss → view ss c.heap ≡ sessions n m id
    shown ss found = sym (ap (λ x. view x c.heap) (slice_of-found n c id ss found)) ∙ rep.shows id

    pub length-view :
        (ss : Slice) → lookup id c.session_lists ≡ some ss → length (view ss c.heap) ≡ ss.len
    length-view ss found =
        length-take ss.len (c.heap.cells ss.array) (rep.sound.bounded id ss found).0

    module _ (ss : Slice) (found : lookup id c.session_lists ≡ some ss) (i : ℕ) (s : Session)
        (at : get_elem? (view ss c.heap) i ≡ some s) where
      length-left : length (remove_at (view ss c.heap) i) ≡ ss.len - 1
      length-left = omega (
        arith,
        length-remove_at (view ss c.heap) i s at,
        length-take ss.len (c.heap.cells ss.array) (rep.sound.bounded id ss found).0,
      )

      pub Represents-delete_at :
          Represents n
            (put_slice n c id (delete_at i ss c.heap))
            (store n m id (remove_at (sessions n m id) i))
      unfolding delete_at written
      Represents-delete_at =
          subst (λ ys. Represents n (put_slice n c id (delete_at i ss c.heap)) (store n m id ys))
            (take-append (remove_at (view ss c.heap) i) (drop (ss.len - 1) (c.heap.cells ss.array))
                (ss.len - 1) length-left
              ∙ ap (λ xs. remove_at xs i) (shown ss found))
            (Represents-written n c m id (record ss { len = ss.len - 1 })
              (remove_at (view ss c.heap) i ++ drop (ss.len - 1) (c.heap.cells ss.array))
              c.heap.next rep (omega arith) (rep.sound.bounded id ss found).1
              (omega (
                arith,
                length-left,
                length-append (remove_at (view ss c.heap) i)
                    (drop (ss.len - 1) (c.heap.cells ss.array)),
              ))
              (alone_of ss found))

    module _ (spare : ℕ → List Session) (s : Session) (ss : Slice)
        (found : lookup id c.session_lists ≡ some ss) where
      abbrev Appended : Slice × Heap Session → List Session → Type 0
      Appended x ys = Represents n (put_slice n c id x) (store n m id ys)

      grown : List Session
      grown = view ss c.heap ++ s ∷ spare (suc ss.len)

      take-grown : take (suc ss.len) grown ≡ view ss c.heap ++ s ∷ []
      unfolding grown
      take-grown =
          ap (take (suc ss.len)) (sym (append_assoc (view ss c.heap) (s ∷ []) (spare (suc ss.len))))
          ∙ take-append (view ss c.heap ++ s ∷ []) (spare (suc ss.len)) (suc ss.len)
              (omega (arith, length-view ss found, length-append (view ss c.heap) (s ∷ [])))

      not_next :
          (j : String) (b : Slice)
          → ¬ (id ≡ j)
          → lookup j c.session_lists ≡ some b
          → b.array ≢ c.heap.next
      not_next j b _ at = λ e. absurd (omega (arith, (rep.sound.bounded j b at).1, e))

      append_one-room :
          ltb ss.len (length (c.heap.cells ss.array)) ≡ true
          → append_one spare s ss c.heap ≡ (
            record ss { len = suc ss.len },
            overwrite ss.array (set (c.heap.cells ss.array) ss.len s) c.heap,
          )
      unfolding append_one
      append_one-room room = rw room

      append_one-full :
          ltb ss.len (length (c.heap.cells ss.array)) ≡ false
          → append_one spare s ss c.heap ≡ (
            record { array = c.heap.next; len = suc ss.len },
            overwrite c.heap.next grown (record c.heap { next = suc c.heap.next }),
          )
      unfolding append_one grown
      append_one-full full = rw full

      append_room :
          ltb ss.len (length (c.heap.cells ss.array)) ≡ true
          → Appended (append_one spare s ss c.heap) (view ss c.heap ++ s ∷ [])
      unfolding written
      append_room room =
          subst (λ x. Appended x (view ss c.heap ++ s ∷ [])) (sym (append_one-room room))
            (subst
              (Appended (
                record ss { len = suc ss.len },
                overwrite ss.array (set (c.heap.cells ss.array) ss.len s) c.heap,
              ))
              (take-set (c.heap.cells ss.array) ss.len s (ground arith))
              (Represents-written n c m id (record ss { len = suc ss.len })
                (set (c.heap.cells ss.array) ss.len s) c.heap.next rep (omega arith)
                (rep.sound.bounded id ss found).1
                (ground (arith, length-set (c.heap.cells ss.array) ss.len s)) (alone_of ss found)))

      append_full :
          ltb ss.len (length (c.heap.cells ss.array)) ≡ false
          → Appended (append_one spare s ss c.heap) (view ss c.heap ++ s ∷ [])
      unfolding written
      append_full full =
          subst (λ x. Appended x (view ss c.heap ++ s ∷ [])) (sym (append_one-full full))
            (subst
              (Appended (
                record { array = c.heap.next; len = suc ss.len },
                overwrite c.heap.next grown (record c.heap { next = suc c.heap.next }),
              ))
              take-grown
              (Represents-written n c m id (record { array = c.heap.next; len = suc ss.len }) grown
                (suc c.heap.next) rep (omega arith) (omega arith)
                (unfold grown in
                  omega (
                    arith,
                    length-view ss found,
                    length-append (view ss c.heap) (s ∷ spare (suc ss.len)),
                  ))
                not_next))

      pub Represents-append_one :
          Appended (append_one spare s ss c.heap) (sessions n m id ++ s ∷ [])
      Represents-append_one =
          subst (λ xs. Appended (append_one spare s ss c.heap) (xs ++ s ∷ [])) (shown ss found)
            (elim (Bool-cases (ltb ss.len (length (c.heap.cells ss.array)))) [
              | inl room ↦ append_room room
              | inr full ↦ append_full full
            ])
