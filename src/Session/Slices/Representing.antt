-- ===== src/Session/Slices/Representing.antt =====
-- When a manager over slices holds the lists of a manager over lists, and how a write keeps that.
use kopilot.Base.{
  ℕ, ◌<◌, ◌≤◌, ◌≡◌, ◌≢◌, sym, ap, subst, ◌∙◌, ◌⊎◌, inl, inr, String, List, none, some, lookup,
  lookup-insert, text_eq-false, eq_iff, ◌==◌, Bool-cases, Option-cases, length, take, arith,
}
use kopilot.Session.{Network, SessionManager, sessions, store}
use kopilot.Session.Dialling.{sessions-store, sessions-store_other}
use kopilot.Session.Slices.{SliceManager, slice_of, put_slice}
use kopilot.Session.Slices.Memory.{Slice, nil_slice, view, overwrite}

some-injective {ℓ} : {A : Type ℓ} (a b : A) → some a ≡ some b → a ≡ b
some-injective a b q = cc

module _ (n : Network) where
  open n use {World, Session, Conn, intn, open_conn, close, key_string}

  -- Every slice in the map lies in an array of its own.
  pub record IsSound (c : SliceManager n) : Type 0 where
    pub bounded :
        (id : String) (ss : Slice)
        → lookup id c.session_lists ≡ some ss
        → (ss.len ≤ length (c.heap.cells ss.array)) × (ss.array < c.heap.next)
    pub apart :
        (i j : String) (a b : Slice)
        → lookup i c.session_lists ≡ some a
        → lookup j c.session_lists ≡ some b
        → a.array ≡ b.array
        → i ≡ j

  -- The manager over slices holds the lists of the other.
  pub record Represents (c : SliceManager n) (m : SessionManager n) : Type 0 where
    pub sound : IsSound c
    pub shows : (id : String) → view (slice_of n c id) c.heap ≡ sessions n m id

  pub slice_of-found :
      (c : SliceManager n) (id : String) (ss : Slice)
      → lookup id c.session_lists ≡ some ss
      → slice_of n c id ≡ ss
  slice_of-found c id ss q = rw (q, slice_of)

  pub slice_of-missing :
      (c : SliceManager n) (id : String)
      → lookup id c.session_lists ≡ none
      → slice_of n c id ≡ nil_slice
  slice_of-missing c id q = rw (q, slice_of)

  -- A write of one array, and of the header for it, that no other slice of the map lies in.
  module _ (c : SliceManager n) (m : SessionManager n) (id : String) (ss : Slice)
      (xs : List Session) (next : ℕ) (rep : Represents c m) (more : c.heap.next ≤ next)
      (low : ss.array < next) (fits : ss.len ≤ length xs)
      (alone : (j : String) (b : Slice)
        → ¬ (id ≡ j)
        → lookup j c.session_lists ≡ some b
        → b.array ≢ ss.array) where
    unfoldable pub written : SliceManager n
    written = put_slice n c id (ss, overwrite ss.array xs (record c.heap { next = next }))

    lookup_self : lookup id written.session_lists ≡ some ss
    unfolding written
    lookup_self = ground (arith, lookup-insert id id ss c.session_lists, eq_iff id id)

    lookup_other :
        (j : String) → ¬ (id ≡ j) → lookup j written.session_lists ≡ lookup j c.session_lists
    unfolding written
    lookup_other j h = ground (arith, lookup-insert id j ss c.session_lists, text_eq-false id j h)

    cells_self : written.heap.cells ss.array ≡ xs
    unfolding written
    cells_self = ground arith

    cells_other : (r : ℕ) → r ≢ ss.array → written.heap.cells r ≡ c.heap.cells r
    unfolding written
    cells_other r h = ground arith

    cases : (j : String) → (id ≡ j) ⊎ (¬ (id ≡ j))
    cases j = elim (Bool-cases (id == j)) [
      | inl same ↦ inl ((eq_iff id j).0 same)
      | inr other ↦ inr (λ q. ground (arith, eq_iff id j))
    ]

    head_eq : (b : Slice) → lookup id written.session_lists ≡ some b → ss ≡ b
    head_eq b q = some-injective ss b (sym lookup_self ∙ q)

    bounded_self : (ss.len ≤ length (written.heap.cells ss.array)) × (ss.array < written.heap.next)
    bounded_self = (rw cells_self fits, unfold written in low)

    bounded_written :
        (j : String) (b : Slice)
        → lookup j written.session_lists ≡ some b
        → (b.len ≤ length (written.heap.cells b.array)) × (b.array < written.heap.next)
    bounded_written j b q = elim (cases j) [
      | inl same ↦
          subst
            (λ (x : Slice).
              (x.len ≤ length (written.heap.cells x.array)) × (x.array < written.heap.next))
            (head_eq b (subst (λ k. lookup k written.session_lists ≡ some b) (sym same) q))
            bounded_self
      | inr other ↦
          let old = sym (lookup_other j other) ∙ q in
          let (fit, low') = rep.sound.bounded j b old in
          (rw (cells_other b.array (alone j b other old)) fit, unfold written in omega arith)
    ]

    apart_written :
        (i j : String) (a b : Slice)
        → lookup i written.session_lists ≡ some a
        → lookup j written.session_lists ≡ some b
        → a.array ≡ b.array
        → i ≡ j
    apart_written i j a b p q e = elim (cases i) [
      | inl at_i ↦ elim (cases j) [
        | inl at_j ↦ sym at_i ∙ at_j
        | inr other ↦ absurd (
            alone j b other (sym (lookup_other j other) ∙ q) (
              sym e
              ∙ sym (
                  ap (λ (x : Slice). x.array)
                    (head_eq a
                      (subst (λ k. lookup k written.session_lists ≡ some a) (sym at_i) p)))))
      ]
      | inr other ↦ elim (cases j) [
        | inl at_j ↦ absurd (
            alone i a other (sym (lookup_other i other) ∙ p) (
              e
              ∙ sym (
                  ap (λ (x : Slice). x.array)
                    (head_eq b
                      (subst (λ k. lookup k written.session_lists ≡ some b) (sym at_j) q)))))
        | inr other' ↦
            rep.sound.apart i j a b (sym (lookup_other i other) ∙ p)
              (sym (lookup_other j other') ∙ q) e
      ]
    ]

    view_other :
        (j : String)
        → ¬ (id ≡ j)
        → (lookup j c.session_lists ≡ none) ⊎ ((b : Slice) × (lookup j c.session_lists ≡ some b))
        → view (slice_of n written j) written.heap ≡ view (slice_of n c j) c.heap
    view_other j other (inl missing) =
        ap (λ x. view x written.heap) (slice_of-missing written j (lookup_other j other ∙ missing))
        ∙ sym (ap (λ x. view x c.heap) (slice_of-missing c j missing))
    view_other j other (inr (b, found)) =
        ap (λ x. view x written.heap) (slice_of-found written j b (lookup_other j other ∙ found))
        ∙ (ap (take b.len) (cells_other b.array (alone j b other found))
            ∙ sym (ap (λ x. view x c.heap) (slice_of-found c j b found)))

    shows_written :
        (j : String)
        → view (slice_of n written j) written.heap ≡ sessions n (store n m id (take ss.len xs)) j
    shows_written j = elim (cases j) [
      | inl same ↦
          subst
            (λ k.
              view (slice_of n written k) written.heap
              ≡ sessions n (store n m id (take ss.len xs)) k)
            same
            (ap (λ x. view x written.heap) (slice_of-found written id ss lookup_self)
              ∙ (ap (take ss.len) cells_self ∙ sym (sessions-store n m id (take ss.len xs))))
      | inr other ↦
          view_other j other (Option-cases (lookup j c.session_lists))
          ∙ (rep.shows j ∙ sym (sessions-store_other n m id j (take ss.len xs) other))
    ]

    pub Represents-written : Represents written (store n m id (take ss.len xs))
    Represents-written = record {
      sound = record { bounded = bounded_written; apart = apart_written };
      shows = shows_written;
    }
