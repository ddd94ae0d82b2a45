-- ===== src/Tests/Schemes.antt =====
-- Schemes as the lists of the kinds that they know.
use kopilot.Base.{◌≡◌, refl, String, List, [], ◌∷◌, ok, done, any, ◌==◌}
use kopilot.Api.Scheme.{
  SchemeLibrary, add_known_types, add_all, add_to_scheme, clientset_add_to_scheme, must_scheme,
  clientset_scheme, webhook_scheme,
}

abbrev library : SchemeLibrary
library = record {
  Scheme = List String;
  new_scheme = [];
  add_types = λ g kinds s. elim kinds [ [] ↦ s | k ∷ ks ↦ k ∷ s ];
  add_to_group_version = λ g s. g.version ∷ s;
  knows = λ s g k. any (λ x. x == k) s;
  client_go_add_to_scheme = λ s. ok ("Pod" ∷ s);
}

clientset_test : clientset_scheme library ≡ done ("v1alpha1" ∷ "Cluster" ∷ "v1" ∷ [])
unfolding clientset_scheme clientset_add_to_scheme add_to_scheme add_all add_known_types must_scheme
clientset_test = refl

webhook_test : webhook_scheme library ≡ done ("v1alpha1" ∷ "Cluster" ∷ "Pod" ∷ [])
unfolding webhook_scheme add_to_scheme add_all add_known_types must_scheme
webhook_test = refl
