-- ===== src/Tests/Webhooks.antt =====
-- The webhooks over a runtime in which a cluster is its own JSON text.
use kopilot.Base.{◌≡◌, ◌≢◌, ◌↔◌, ◌⊎◌, refl, ℕ, String, none, some, lookup, done, panicked, ok}
use kopilot.Api.{Cluster}
use kopilot.Webhook.{
  Runtime, Webhook, patch_from_raw, allowed, denied, new_webhook, inject_decoder,
  with_default_token, field_errors, mutate, validate,
}
use kopilot.Webhook.Admission.{validate_iff, mutate_lem}
use kopilot.Webhook.Serving.{
  Controller, WebhookServer, mutator_route, registered, call, set_up_webhooks, webhook_main,
}
use kopilot.Webhook.Serving.Admitting.{call-Admits}
use kopilot.Tests.Demo.{kube, cluster}

abbrev runtime : Runtime
runtime = record {
  kube = kube;
  World = ℕ;
  Raw = Cluster kube;
  AdmissionRequest = Cluster kube;
  raw_object = λ req. req;
  Decoder = Unit {0};
  decode = λ d req. ok req;
  marshal = λ x. ok x;
  new_uuid = λ w. ("8c0e0a2e", w);
  FieldError = String;
  required = λ name detail. name;
  aggregate = λ errs. "token: Required value";
}

abbrev hook : Webhook runtime
hook = record { decoder = some tt }

abbrev bare : Cluster kube
bare = record cluster { token = "" }

abbrev filled : Cluster kube
filled = record cluster { token = "8c0e0a2e" }

hook_test : inject_decoder runtime tt (new_webhook runtime) ≡ hook
unfolding inject_decoder
hook_test = refl

patch_test : mutate runtime hook bare 0 ≡ done (patch_from_raw bare filled, 0)
unfolding mutate with_default_token
patch_test = refl

denial_test : validate runtime hook bare ≡ done (denied "token: Required value")
unfolding validate field_errors
denial_test = refl

validate_iff_example :
    ((validate runtime hook bare ≡ done (allowed ""))
      ↔ ((x : Cluster kube) × (runtime.decode tt bare ≡ ok x) × (x.token ≢ "")))
    × (((reason : String) × (validate runtime hook bare ≡ done (denied reason)))
        ↔ ((x : Cluster kube) × (runtime.decode tt bare ≡ ok x) × (x.token ≡ "")))
    × (validate runtime hook bare ≢ panicked)
validate_iff_example = validate_iff runtime hook tt bare refl

mutate_lem_example :
    (given written : Cluster kube) × (runtime.decode tt bare ≡ ok given)
    × (runtime.marshal written ≡ ok filled)
    × (bare ≡ runtime.raw_object bare)
    × (written.token ≢ "")
    × (((given.token ≡ "") × (written.token ≡ (runtime.new_uuid 0).0)) ⊎ (written ≡ given))
    × ((written.type_meta ≡ given.type_meta) × (written.object_meta ≡ given.object_meta))
mutate_lem_example = mutate_lem runtime hook tt bare 0 0 bare filled (λ w h. cc) refl patch_test

carries :
    (x : Cluster kube) (raw : Cluster kube) (req : Cluster kube)
    → runtime.marshal x ≡ ok raw
    → req ≡ raw
    → runtime.decode tt req ≡ ok x
carries x raw req h k = cc

-- A manager whose webhook server runs until a signal comes.
abbrev controller : Controller runtime
controller = record { new_manager = λ port w. (ok tt, w); start = λ s w. (none, w) }

abbrev server : WebhookServer runtime
server = record { port = 9443; decoder = tt; routes = registered runtime tt }

ends_test : webhook_main runtime controller none 0 ≡ (0, 0)
unfolding webhook_main set_up_webhooks
ends_test = refl

call-Admits_example :
    call runtime server "/validate-v1alpha1-cluster" filled 0 ≡ some (done (allowed "", 0))
unfolding set_up_webhooks call registered mutator_route inject_decoder mutate with_default_token
    lookup
call-Admits_example =
    call-Admits runtime controller none 0 0 0 server bare filled bare filled (λ w h. cc) carries
      refl refl refl
