-- ===== src/Session/Slices/Adding.antt =====
-- `AddClusterSession` over slices against the one over lists.
use kopilot.Base.{
  ℕ, suc, ◌≡◌, refl, sym, ap, subst, ◌∙◌, inl, inr, String, List, [], ◌∷◌, ◌++◌, none, some, lookup,
  lookup-insert, insert-insert, eq_iff, Option-cases, arith,
}
use kopilot.Api.{NamespacedName}
use kopilot.Session.{
  Network, SessionManager, sessions, store, add_cluster_session, new_session_manager,
}
use kopilot.Session.Dialling.{sessions-store}
use kopilot.Session.Slices.{SliceManager, put_slice, new_slice_manager, add_in_place}
use kopilot.Session.Slices.Representing.{Represents, slice_of-missing, written, Represents-written}
use kopilot.Session.Slices.Writing.{Represents-append_one}
use kopilot.Session.Slices.Memory.{Slice, view, overwrite, append_one, make_empty}

module _ (n : Network) where
  open n use {World, Session, Conn, intn, open_conn, close, key_string}

  pub Represents-new : Represents n (new_slice_manager n) (new_session_manager n)
  unfolding new_slice_manager new_session_manager lookup
  Represents-new = record {
    sound = record {
      bounded = λ id ss q. absurd (ground arith);
      apart = λ i j a b p q e. absurd (ground arith);
    };
    shows = λ id. refl;
  }

  module _ (spare : ℕ → List Session) (key : NamespacedName) (s : Session) (c : SliceManager n)
      (m : SessionManager n) (rep : Represents n c m) where
    Represents-add_found :
        (ss : Slice)
        → lookup (key_string key) c.session_lists ≡ some ss
        → Represents n (add_in_place n spare key s c) (add_cluster_session n key s m)
    unfolding add_in_place add_cluster_session
    Represents-add_found ss found =
        rw (found, add_in_place) (Represents-append_one n c m (key_string key) rep spare s ss found)

    Represents-add_missing :
        lookup (key_string key) c.session_lists ≡ none
        → Represents n (add_in_place n spare key s c) (add_cluster_session n key s m)
    unfolding add_in_place add_cluster_session make_empty written
    Represents-add_missing missing =
        rw (missing, add_in_place)
          (subst
            (λ t.
              Represents n
                (record {
                  session_lists = t;
                  heap = (append_one spare s empty_slice emptied.heap).1;
                })
                (store n m id (sessions n m id ++ s ∷ [])))
            (insert-insert id (append_one spare s empty_slice emptied.heap).0 empty_slice
              c.session_lists)
            (subst
              (λ t.
                Represents n (put_slice n emptied id (append_one spare s empty_slice emptied.heap))
                  (record { session_lists = t }))
              (insert-insert id (sessions n m id ++ s ∷ []) [] m.session_lists)
              (subst
                (λ xs.
                  Represents n
                    (put_slice n emptied id (append_one spare s empty_slice emptied.heap))
                    (store n (store n m id []) id (xs ++ s ∷ [])))
                (sessions-store n m id [] ∙ sym none_listed)
                (Represents-append_one n emptied (store n m id []) id Represents-emptied spare s
                  empty_slice found_empty))))
      where
        id : String
        id = key_string key

        empty_slice : Slice
        empty_slice = record { array = c.heap.next; len = 0 }

        emptied : SliceManager n
        emptied =
            put_slice n c id
              (empty_slice, overwrite c.heap.next [] (record c.heap { next = suc c.heap.next }))

        none_listed : sessions n m id ≡ []
        none_listed = sym (rep.shows id) ∙ ap (λ x. view x c.heap) (slice_of-missing n c id missing)

        found_empty : lookup id emptied.session_lists ≡ some empty_slice
        found_empty = ground (arith, lookup-insert id id empty_slice c.session_lists, eq_iff id id)

        Represents-emptied : Represents n emptied (store n m id [])
        Represents-emptied =
            Represents-written n c m id empty_slice [] (suc c.heap.next) rep (omega arith)
              (omega arith) (omega arith)
              (λ j b _ at e. absurd (omega (arith, (rep.sound.bounded j b at).1, e)))

    pub Represents-add_in_place :
        Represents n (add_in_place n spare key s c) (add_cluster_session n key s m)
    Represents-add_in_place = elim (Option-cases (lookup (key_string key) c.session_lists)) [
      | inl missing ↦ Represents-add_missing missing
      | inr (ss, found) ↦ Represents-add_found ss found
    ]
