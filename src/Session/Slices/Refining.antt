-- ===== src/Session/Slices/Refining.antt =====
-- `DialCluster` over slices against the one over lists.
use kopilot.Base.{
  ℕ, zero, suc, ◌≡◌, refl, sym, ap, subst, ◌∙◌, ◌⊎◌, inl, inr, String, List, [], ◌∷◌, true, false,
  none, some, lookup, lookup-insert, eq_iff, nat_eq, Option-cases, Result-cases, length, get_elem?,
  remove_at, Error, Result, ok, err, Outcome, done, panicked, starved, arith,
}
use kopilot.Api.{NamespacedName}
use kopilot.Session.{Network, SessionManager, sessions, store, dial, dial_cluster, Dialled}
use kopilot.Session.Dialling.{sessions-store}
use kopilot.Session.Slices.{
  SliceManager, slice_of, put_slice, dial_in_place, dial_cluster_in_place, DialledInPlace,
}
use kopilot.Session.Slices.Representing.{Represents, slice_of-found, slice_of-missing}
use kopilot.Session.Slices.Writing.{length-view, Represents-delete_at}
use kopilot.Session.Slices.Memory.{Slice, Heap, view, delete_at}

module _ (n : Network) where
  open n use {World, Session, Conn, intn, open_conn, close, key_string}

  -- Two runs end alike: with the same answer in the same world, and managers that hold the same.
  pub data Agrees : Outcome (DialledInPlace n) → Outcome (Dialled n) → Type 0 where
    both_done :
        (r : Result Conn) (w : World) (c : SliceManager n) (m : SessionManager n)
        → Represents n c m
        → Agrees (done (r, c, w)) (done (r, m, w))
    both_panicked : Agrees panicked panicked
    both_starved : Agrees starved starved

  length-own :
      (c : SliceManager n) (m : SessionManager n) (id : String) (ss : Slice) (xs : List Session)
      → Represents n c m
      → slice_of n c id ≡ ss
      → sessions n m id ≡ xs
      → (view ss c.heap ≡ xs) × (ss.len ≡ length xs)
  length-own c m id ss xs rep own held =
      let same = ap (λ x. view x c.heap) (sym own) ∙ (rep.shows id ∙ held) in
      (same, sym (ap length (sym same) ∙ whole (Option-cases (lookup id c.session_lists))))
    where
      whole :
          (lookup id c.session_lists ≡ none) ⊎ ((b : Slice) × (lookup id c.session_lists ≡ some b))
          → length (view ss c.heap) ≡ ss.len
      whole (inl missing) =
          subst (λ (x : Slice). length (view x c.heap) ≡ x.len)
            (sym (slice_of-missing n c id missing) ∙ own) refl
      whole (inr (b, found)) =
          length-view n c m id rep ss (found ∙ ap some (sym (slice_of-found n c id b found) ∙ own))

  -- The rounds of the loop over a list, with its length under another name.
  module _ (fuel l : ℕ) (id : String) (s₀ : Session) (rest : List Session) (m : SessionManager n)
      (w : World) (len : l ≡ length (s₀ ∷ rest)) where
    dial-past :
        get_elem? (s₀ ∷ rest) (intn l w).0 ≡ none → dial n (suc fuel) id (s₀ ∷ rest) m w ≡ panicked
    unfolding dial
    dial-past =
        subst
          (λ k.
            get_elem? (s₀ ∷ rest) (intn k w).0 ≡ none
            → dial n (suc fuel) id (s₀ ∷ rest) m w ≡ panicked)
          (sym len) (λ at. rw (at, dial))

    dial-opened :
        (s : Session) (conn : Conn)
        → get_elem? (s₀ ∷ rest) (intn l w).0 ≡ some s
        → (open_conn s (intn l w).1).0 ≡ ok conn
        → dial n (suc fuel) id (s₀ ∷ rest) m w ≡ done (ok conn, m, (open_conn s (intn l w).1).1)
    unfolding dial
    dial-opened s conn =
        subst
          (λ k.
            get_elem? (s₀ ∷ rest) (intn k w).0 ≡ some s
            → (open_conn s (intn k w).1).0 ≡ ok conn
            → dial n (suc fuel) id (s₀ ∷ rest) m w
              ≡ done (ok conn, m, (open_conn s (intn k w).1).1))
          (sym len) (λ at e. rw (at, e, dial))

    dial-failed :
        (s : Session) (er : Error)
        → get_elem? (s₀ ∷ rest) (intn l w).0 ≡ some s
        → (open_conn s (intn l w).1).0 ≡ err er
        → dial n (suc fuel) id (s₀ ∷ rest) m w
          ≡ dial n fuel id
              (remove_at (s₀ ∷ rest) (intn l w).0)
              (store n m id (remove_at (s₀ ∷ rest) (intn l w).0))
              (close s (open_conn s (intn l w).1).1)
    unfolding dial
    dial-failed s er =
        subst
          (λ k.
            get_elem? (s₀ ∷ rest) (intn k w).0 ≡ some s
            → (open_conn s (intn k w).1).0 ≡ err er
            → dial n (suc fuel) id (s₀ ∷ rest) m w
              ≡ dial n fuel id (remove_at (s₀ ∷ rest) (intn k w).0)
                  (store n m id (remove_at (s₀ ∷ rest) (intn k w).0))
                  (close s (open_conn s (intn k w).1).1))
          (sym len) (λ at e. rw (at, e, dial))

  slice_of-put :
      (c : SliceManager n) (id : String) (x : Slice × Heap Session)
      → slice_of n (put_slice n c id x) id ≡ x.0
  slice_of-put c id x =
      slice_of-found n (put_slice n c id x) id x.0
        (ground (arith, lookup-insert id id x.0 c.session_lists, eq_iff id id))

  found_own :
      (c : SliceManager n) (m : SessionManager n) (id : String) (ss : Slice) (s₀ : Session)
      (rest : List Session)
      → Represents n c m
      → slice_of n c id ≡ ss
      → sessions n m id ≡ s₀ ∷ rest
      → lookup id c.session_lists ≡ some ss
  found_own c m id ss s₀ rest rep own held = elim (Option-cases (lookup id c.session_lists)) [
    | inl missing ↦
        let none_listed : sessions n m id ≡ [] =
          sym (rep.shows id) ∙ ap (λ x. view x c.heap) (slice_of-missing n c id missing) in
        absurd (ground arith)
    | inr (b, found) ↦ found ∙ ap some (sym (slice_of-found n c id b found) ∙ own)
  ]

  dial_in_place-Agrees :
      (fuel : ℕ) (id : String) (ss : Slice) (c : SliceManager n) (m : SessionManager n) (w : World)
      (xs : List Session)
      → Represents n c m
      → slice_of n c id ≡ ss
      → sessions n m id ≡ xs
      → Agrees (dial_in_place n fuel id ss c w) (dial n fuel id xs m w)
  unfolding dial_in_place
  dial_in_place-Agrees zero id ss c m w xs rep own held = unfold dial in both_starved
  dial_in_place-Agrees (suc fuel) id ss c m w [] rep own held =
      let (_, len) = length-own c m id ss [] rep own held in
      let empty : nat_eq ss.len 0 ≡ true = ground arith in
      unfold dial in rw (empty, dial_in_place) (both_done _ w c m rep)
  dial_in_place-Agrees (suc fuel) id ss c m w (s₀ ∷ rest) rep own held =
      let (same, len) = length-own c m id ss (s₀ ∷ rest) rep own held in
      let filled : nat_eq ss.len 0 ≡ false = ground arith in
      elim (Option-cases (get_elem? (s₀ ∷ rest) (intn ss.len w).0)) [
        | inl past ↦
            rw (filled, ap (λ ys. get_elem? ys (intn ss.len w).0) same ∙ past, dial_in_place)
              (subst (Agrees panicked) (sym (dial-past fuel ss.len id s₀ rest m w len past))
                both_panicked)
        | inr (s, at) ↦ elim (Result-cases (open_conn s (intn ss.len w).1).0) [
          | inl (conn, e) ↦
              rw (filled, ap (λ ys. get_elem? ys (intn ss.len w).0) same ∙ at, e, dial_in_place)
                (subst (Agrees _) (sym (dial-opened fuel ss.len id s₀ rest m w len s conn at e))
                  (both_done _ _ c m rep))
          | inr (er, e) ↦
              let i = (intn ss.len w).0 in
              let w' = close s (open_conn s (intn ss.len w).1).1 in
              let at_view = ap (λ ys. get_elem? ys (intn ss.len w).0) same ∙ at in
              rw (filled, at_view, e, dial_in_place)
                (subst (Agrees _) (sym (dial-failed fuel ss.len id s₀ rest m w len s er at e)) (
                  subst
                    (λ ys.
                      Agrees
                        (dial_in_place n fuel id (delete_at i ss c.heap).0
                          (put_slice n c id (delete_at i ss c.heap)) w')
                        (dial n fuel id (remove_at ys i) (store n m id (remove_at ys i)) w'))
                    held
                    (dial_in_place-Agrees fuel id (delete_at i ss c.heap).0
                      (put_slice n c id (delete_at i ss c.heap))
                      (store n m id (remove_at (sessions n m id) i)) w'
                      (remove_at (sessions n m id) i)
                      (Represents-delete_at n c m id rep ss
                        (found_own c m id ss s₀ rest rep own held) i s at_view)
                      (slice_of-put c id (delete_at i ss c.heap))
                      (sessions-store n m id (remove_at (sessions n m id) i)))))
        ]
      ]

  pub dial_cluster_in_place-Agrees :
      (key : NamespacedName) (c : SliceManager n) (m : SessionManager n) (w : World)
      → Represents n c m
      → Agrees (dial_cluster_in_place n key c w) (dial_cluster n key m w)
  unfolding dial_cluster_in_place dial_cluster
  dial_cluster_in_place-Agrees key c m w rep =
      let id = key_string key in
      let (_, len) = length-own c m id (slice_of n c id) (sessions n m id) rep refl refl in
      subst
        (λ k.
          Agrees (dial_in_place n (suc (slice_of n c id).len) id (slice_of n c id) c w)
            (dial n (suc k) id (sessions n m id) m w))
        len
        (dial_in_place-Agrees (suc (slice_of n c id).len) id (slice_of n c id) c m w
          (sessions n m id) rep refl refl)
