-- ===== src/Webhook/Admission.antt =====
-- What the webhooks let into the host cluster.
use kopilot.Base.{
  ◌≡◌, ◌≢◌, ◌↔◌, ◌⊎◌, inl, inr, String, [], ◌∷◌, true, false, some, ◌==◌, eq_iff, Bool-cases,
  Result-cases, Error, ok, err, done, panicked, arith,
}
use kopilot.Api.{Cluster}
use kopilot.Webhook.{
  Runtime, Webhook, errored, patch_from_raw, denied, allowed, with_default_token, mutate, validate,
}

module _ (t : Runtime) where
  open t use {kube, World, Raw, AdmissionRequest, Decoder, raw_object, decode, marshal, new_uuid}

  -- Documented: a UUID is a text of 36 characters; what `json.Marshal` writes of a cluster decodes
  -- to it, where it is the object of a request.
  abbrev pub IsUuidNonempty : Type 0
  IsUuidNonempty = (w : World) → (new_uuid w).0 ≢ ""

  abbrev pub IsRoundTrip : Decoder → Type 0
  IsRoundTrip d =
      (cluster : Cluster kube) (raw : Raw) (req : AdmissionRequest)
      → marshal cluster ≡ ok raw
      → raw_object req ≡ raw
      → decode d req ≡ ok cluster

  module _ (h : Webhook t) (d : Decoder) (req : AdmissionRequest) where
    validate-errored :
        (er : Error)
        → h.decoder ≡ some d
        → decode d req ≡ err er
        → validate t h req ≡ done (errored 400 er)
    unfolding validate
    validate-errored er injected q = ground arith

    validate-denied :
        (cluster : Cluster kube)
        → h.decoder ≡ some d
        → decode d req ≡ ok cluster
        → (cluster.token == "") ≡ true
        → validate t h req ≡ done (denied (t.aggregate (t.required "token" "" ∷ [])))
    unfolding validate
    validate-denied cluster injected q empty = ground arith

    validate-allowed :
        (cluster : Cluster kube)
        → h.decoder ≡ some d
        → decode d req ≡ ok cluster
        → (cluster.token == "") ≡ false
        → validate t h req ≡ done (allowed "")
    unfolding validate
    validate-allowed cluster injected q full = ground arith

  -- The validator allows a cluster exactly if it decodes and has a token, and denies it exactly if
  -- it decodes and has none; with a decoder it does not panic.
  pub validate_iff :
      (h : Webhook t) (d : Decoder) (req : AdmissionRequest)
      → h.decoder ≡ some d
      → ((validate t h req ≡ done (allowed ""))
          ↔ ((cluster : Cluster kube) × (decode d req ≡ ok cluster) × (cluster.token ≢ "")))
        × (((reason : String) × (validate t h req ≡ done (denied reason)))
            ↔ ((cluster : Cluster kube) × (decode d req ≡ ok cluster) × (cluster.token ≡ "")))
        × (validate t h req ≢ panicked)
  validate_iff h d req injected = elim (Result-cases (decode d req)) [
    | inr (er, q) ↦
        let v = validate-errored h d req er injected q in
        ((λ p. cc, λ (cluster, q', _). cc), (λ (reason, p). cc, λ (cluster, q', _). cc), λ p. cc)
    | inl (cluster, q) ↦ elim (Bool-cases (cluster.token == "")) [
      | inl empty ↦
          let e = (eq_iff cluster.token "").0 empty in
          let v = validate-denied h d req cluster injected q empty in
          (
            (λ p. cc, λ (other, q', full). absurd (full (ground arith))),
            (λ _. (cluster, q, e), λ _. (_, v)),
            λ p. cc,
          )
      | inr full ↦
          let v = validate-allowed h d req cluster injected q full in
          (
            (λ _. (cluster, q, λ e. ground (arith, eq_iff cluster.token "")), λ _. v),
            (λ (reason, p). cc, λ (other, q', e). absurd (ground (arith, eq_iff cluster.token ""))),
            λ p. cc,
          )
    ]
  ]

  mutate-marshals :
      (h : Webhook t) (d : Decoder) (req : AdmissionRequest) (given : Cluster kube) (w w' : World)
      (old new : Raw)
      → h.decoder ≡ some d
      → decode d req ≡ ok given
      → mutate t h req w ≡ done (patch_from_raw old new, w')
      → (marshal (with_default_token t given w).0 ≡ ok new) × (old ≡ raw_object req)
  unfolding mutate
  mutate-marshals h d req given w w' old new injected q eq = ground arith

  with_default_token-token :
      IsUuidNonempty
      → (given : Cluster kube) (w : World) → (with_default_token t given w).0.token ≢ ""
  unfolding with_default_token
  with_default_token-token uuid given w e = elim (Bool-cases (given.token == "")) [
    | inl empty ↦ uuid w (rw (empty, with_default_token) at e)
    | inr full ↦ ground (arith, eq_iff given.token "")
  ]

  with_default_token-cases :
      (given : Cluster kube) (w : World)
      → ((given.token ≡ "") × ((with_default_token t given w).0.token ≡ (new_uuid w).0))
        ⊎ ((with_default_token t given w).0 ≡ given)
  unfolding with_default_token
  with_default_token-cases given w = elim (Bool-cases (given.token == "")) [
    | inl empty ↦ inl ((eq_iff _ _).0 empty, rw (empty, with_default_token))
    | inr full ↦ inr (rw (full, with_default_token))
  ]

  with_default_token-meta :
      (given : Cluster kube) (w : World)
      → ((with_default_token t given w).0.type_meta ≡ given.type_meta)
        × ((with_default_token t given w).0.object_meta ≡ given.object_meta)
  unfolding with_default_token
  with_default_token-meta given w = ground arith

  -- The object that the mutator writes encodes the cluster of the request: that cluster itself, or,
  -- if it has no token, the cluster with a new UUID for its token and the same metadata. The token
  -- written is not empty, if a UUID is not. The mutator holds a decoder.
  pub mutate_lem :
      (h : Webhook t) (d : Decoder) (req : AdmissionRequest) (w w' : World) (old new : Raw)
      → IsUuidNonempty
      → h.decoder ≡ some d
      → mutate t h req w ≡ done (patch_from_raw old new, w')
      → (given written : Cluster kube) × (decode d req ≡ ok given)
        × (marshal written ≡ ok new)
        × (old ≡ raw_object req)
        × (written.token ≢ "")
        × (((given.token ≡ "") × (written.token ≡ (new_uuid w).0)) ⊎ (written ≡ given))
        × ((written.type_meta ≡ given.type_meta) × (written.object_meta ≡ given.object_meta))
  mutate_lem h d req w w' old new uuid injected eq = elim (Result-cases (decode d req)) [
    | inr (er, q) ↦ absurd (unfold mutate in ground arith)
    | inl (given, q) ↦
        let (marshaled, at) = mutate-marshals h d req given w w' old new injected q eq in
        (
          given,
          (with_default_token t given w).0,
          q,
          marshaled,
          at,
          with_default_token-token uuid given w,
          with_default_token-cases given w,
          with_default_token-meta given w,
        )
  ]

  -- What the mutator patches, the validator allows: both hold a decoder, and the request of the
  -- validator carries the object as the mutator wrote it.
  pub validate-mutate :
      (h k : Webhook t) (d : Decoder) (req next : AdmissionRequest) (w w' : World) (old new : Raw)
      → IsUuidNonempty
      → IsRoundTrip d
      → h.decoder ≡ some d
      → k.decoder ≡ some d
      → mutate t h req w ≡ done (patch_from_raw old new, w')
      → raw_object next ≡ new
      → validate t k next ≡ done (allowed "")
  validate-mutate h k d req next w w' old new uuid trips injected injected' eq carried =
      let (given, written, _, marshaled, _, full, _, _) =
        mutate_lem h d req w w' old new uuid injected eq in
      (validate_iff k d next injected').0.1
        (written, trips written new next marshaled carried, full)
