-- ===== src/Registry/Declared.antt =====
-- Which operations MatchRoute of internal/registry/registry.go finds.
use quarkgate.Models.{RouteMatch}
use quarkgate.Prelude.{
  Bool, Dict, Text, [], any, false, some, true, ◌&&◌, ◌==◌, ◌||◌, ◌∷◌, ◌≡◌, List, arith, refl,
  text_beq_refl, Option-cases, ap, codes, inl, inr, ◌∙◌, ◌⊎◌, Bool-cases, text_beq_iff, sym, nat_eq,
  text_eq, int_eq,
}
use quarkgate.Registry.{
  Manifest, ManifestOperation, match_operation, provider_path, match_manifests, match_operations,
  match_route,
}

any-&& :
    {A : Type 0} (p : A → Bool) (b : Bool) (xs : List A) → any (λ x. p x && b) xs ≡ (any p xs && b)
any-&& p b [] = refl
any-&& p b (x ∷ xs) = ground (arith, any-&& p b xs)

module _ (equal_fold : Text → Text → Bool) (method path : Text) where
  -- The operation answers to the request, under this id.
  abbrev pub answers : Text → Text → ManifestOperation → Bool
  answers provider operation op =
      op.operation_id == operation
      && equal_fold method op.method
      && (any (λ (cp : Text). path == cp) op.compat_paths
          || path == provider_path equal_fold provider op)

  -- The route's provider is loaded, and declares the route's operation for the request.
  abbrev pub declares : RouteMatch → Dict Text Manifest → Bool
  declares route [] = false
  declares route ((provider, m) ∷ ms) =
      (provider == route.provider && any (answers provider route.operation) m.operations)
      || declares route ms

  match_operation-answers :
      (provider : Text) (op : ManifestOperation) {route : RouteMatch}
      → match_operation equal_fold method path provider op ≡ some route
      → (route.provider ≡ provider) × (answers provider route.operation op ≡ true)
  unfolding match_operation
  match_operation-answers provider op h = ground (
    arith,
    h,
    any-&& (λ (cp : Text). path == cp) (equal_fold method op.method) op.compat_paths,
    text_beq_refl op.operation_id,
  )

  match_operations-answers :
      (provider : Text) (ops : List ManifestOperation) {route : RouteMatch}
      → match_operations equal_fold method path provider ops ≡ some route
      → (route.provider ≡ provider) × (any (answers provider route.operation) ops ≡ true)
  unfolding match_operations
  match_operations-answers provider [] h = cc
  match_operations-answers provider (op ∷ ops) {route} h =
      elim (Option-cases (match_operation equal_fold method path provider op)) [
        | inl passed ↦
            let (own, rest) = match_operations-answers provider ops (rw passed at h) in
            (own, ground (arith, rest))
        | inr (found, e) ↦
            let same : found ≡ route = ground (arith, rw e at h) in
            let (own, there) = match_operation-answers provider op (e ∙ ap some same) in
            (own, rw there refl)
      ]

  match_manifests-declares :
      (ms : Dict Text Manifest) {route : RouteMatch}
      → match_manifests equal_fold method path ms ≡ some route
      → declares route ms ≡ true
  unfolding match_manifests
  match_manifests-declares [] h = cc
  match_manifests-declares ((provider, m) ∷ ms) {route} h =
      elim (Option-cases (match_operations equal_fold method path provider m.operations)) [
        | inl passed ↦ ground (arith, match_manifests-declares ms (rw passed at h))
        | inr (found, e) ↦
            let same : found ≡ route = ground (arith, rw e at h) in
            let (own, there) = match_operations-answers provider m.operations (e ∙ ap some same) in
            ground (arith, own, there, text_beq_refl provider)
      ]

  -- The routes of the two fixed paths.
  abbrev pub chat_route : RouteMatch
  chat_route = record {
    provider = codes "openrouter";
    operation = codes "chat.completions.create";
    compat = true;
  }

  abbrev pub envelope_route : RouteMatch
  envelope_route = record { provider = []; operation = codes "envelope"; compat = false }

  -- A route that is found is the compatible chat completion of `openrouter`, for POST to
  -- `/v1/chat/completions`; or the envelope without a provider, for POST to `/v1/quarkgate`; or its
  -- provider is loaded and declares an operation with its id for the request's method and path.
  pub match_route-declares :
      (ms : Dict Text Manifest) {route : RouteMatch}
      → match_route equal_fold method path ms ≡ some route
      → ((method ≡ codes "POST")
          × (((path ≡ codes "/v1/chat/completions") × (route ≡ chat_route))
              ⊎ ((path ≡ codes "/v1/quarkgate") × (route ≡ envelope_route))))
        ⊎ (declares route ms ≡ true)
  unfolding match_route
  match_route-declares ms {route} h = elim (Bool-cases (method == codes "POST")) [
    | inr other ↦ inr (match_manifests-declares ms (rw other at h))
    | inl post ↦
        let is_post = (text_beq_iff method (codes "POST")).0 post in
        elim (Bool-cases (path == codes "/v1/chat/completions")) [
          | inl chat ↦
              let same : chat_route ≡ route = ground (arith, rw (post, chat) at h) in
              inl
                (is_post, inl ((text_beq_iff path (codes "/v1/chat/completions")).0 chat, sym same))
          | inr other ↦ elim (Bool-cases (path == codes "/v1/quarkgate")) [
            | inl own ↦
                let same : envelope_route ≡ route = ground (arith, rw (post, other, own) at h) in
                inl (is_post, inr ((text_beq_iff path (codes "/v1/quarkgate")).0 own, sym same))
            | inr neither ↦ inr (match_manifests-declares ms (rw (post, other, neither) at h))
          ]
        ]
  ]
