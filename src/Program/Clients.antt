-- ===== src/Program/Clients.antt =====
-- cmd/kopilot-hub/main.go up to the contexts: the clients, from the cluster's configuration. Each
-- failure ends the process by `log.Fatalf`, with the status 1.
use kopilot.Base.{◌≡◌, refl, String, Error, errorf, Result, ok, err}
use Prim.Native.String
use kopilot.Clientset.{RestTypes, RestConfig, RestLibrary, Clientset, new_for_config}

-- `clientcmd.BuildConfigFromFlags("", "")` and `NewForConfig` of package kubernetes.
pub record KubeLibrary (t : RestTypes) : Type 1 where
  pub KubeClient : Type 0
  pub build_config : t.World → Result (RestConfig t) × t.World
  pub kube_for_config : RestConfig t → t.World → Result KubeClient × t.World

pub record Clients (t : RestTypes) (l : KubeLibrary t) : Type 0 where
  pub kube_client : l.KubeClient
  pub client : Clientset t

module _ (t : RestTypes) (lib : RestLibrary t) (l : KubeLibrary t) where
  open t use {World}
  open l use {KubeClient, build_config, kube_for_config}

  abbrev pub fatal : String → Error → Error
  fatal text e = errorf (String.◌++◌ text e.text)

  unfoldable pub kopilot_client : KubeClient → RestConfig t → World → Result (Clients t l) × World
  kopilot_client kube c w =
      let (r, w') = new_for_config t lib c w in
      elim r [
        | err e ↦ (err (fatal "failed to create client: " e), w')
        | ok cs ↦ (ok (record { kube_client = kube; client = cs }), w')
      ]

  unfoldable pub kube_clients : RestConfig t → World → Result (Clients t l) × World
  kube_clients c w =
      let (r, w') = kube_for_config c w in
      elim r [
        | err e ↦ (err (fatal "failed to create Kubernetes client: " e), w')
        | ok kube ↦ kopilot_client kube c w'
      ]

  unfoldable pub hub_clients : World → Result (Clients t l) × World
  hub_clients w =
      let (r, w') = build_config w in
      elim r [
        | err e ↦ (err (fatal "failed to build kubeconfig: " e), w')
        | ok c ↦ kube_clients c w'
      ]

  -- Where there is a configuration, and both clients can be made from it, one after the other, the
  -- hub gets these.
  hub_clients-ok :
      (w : World) (c : RestConfig t) (kube : KubeClient) (cs : Clientset t)
      → (build_config w).0 ≡ ok c
      → (kube_for_config c (build_config w).1).0 ≡ ok kube
      → (new_for_config t lib c (kube_for_config c (build_config w).1).1).0 ≡ ok cs
      → (hub_clients w).0 ≡ ok (record { kube_client = kube; client = cs })
  unfolding hub_clients kube_clients kopilot_client
  hub_clients-ok w c kube cs p q r =
      rw (p, hub_clients) (rw (q, kube_clients) (rw (r, kopilot_client) refl))
