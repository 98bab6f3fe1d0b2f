-- ===== src/Inference/Cached.antt =====
-- A completion that was given once is given again (src/modules/inference-gateway/inference-gateway.service.ts).
use peer_core.Inference.{
  ask, remember, Gateway, complete, CompletionResponse, CompletionRequest, InferenceProvider,
}
use peer_core.Base.{
  sym, Option-cases, or_default, ◌∙◌, subst, eq_iff, str_eq, lookup-insert, Bool-cases, arith, ◌≡◌,
  insert, lookup, Bool, List, Map, String, [], ◌∷◌, none, some, true, false, refl, inl, inr, Option,
  ap,
}
use peer_core.Action.{Result, ok, err}

lookup-insert_self :
    (k : String) (v : CompletionResponse) (m : Map CompletionResponse)
    → lookup k (insert k v m) ≡ some v
lookup-insert_self k v m = ground (arith, lookup-insert k k v m, eq_iff k k)

lookup-insert_other :
    (k j : String) (v r : CompletionResponse) (m : Map CompletionResponse)
    → lookup k m ≡ none
    → lookup j m ≡ some r
    → lookup j (insert k v m) ≡ some r
lookup-insert_other k j v r m miss hit = elim (Bool-cases (str_eq k j)) [
  | inl same ↦
      let key = (eq_iff k j).0 same in
      absurd (ground (arith, subst (λ x. lookup x m ≡ none) key miss))
  | inr other ↦ lookup-insert k j v m ∙ rw other hit
]

module _ (p : InferenceProvider) (digest : CompletionRequest → String) where
  remember-lookup :
      (use_cache : Bool) (made : String) (r : Result CompletionResponse × p.State)
      (g : Gateway p.State) (key : String) (res : CompletionResponse)
      → (use_cache ≡ true → lookup made g.cache ≡ none)
      → lookup key g.cache ≡ some res
      → lookup key (remember p digest use_cache made r g).1.cache ≡ some res
  remember-lookup use_cache made (err e, s) g key res miss h = h
  remember-lookup false made (ok new, s) g key res miss h = h
  remember-lookup true made (ok new, s) g key res miss h =
      lookup-insert_other made key new res g.cache (miss refl) h

  complete-lookup :
      (req : CompletionRequest) (cache : Option Bool) (g : Gateway p.State) (key : String)
      (res : CompletionResponse)
      → lookup key g.cache ≡ some res
      → lookup key (complete p digest req cache g).1.cache ≡ some res
  unfolding complete
  complete-lookup req cache g key res h = elim (Bool-cases (or_default cache true)) [
    | inr off ↦
        rw (complete, off)
          (remember-lookup false (digest req) (p.complete req g.provider) _ key res
            (λ wrong. absurd (ground (arith, wrong))) h)
    | inl on ↦ elim (Option-cases (lookup (digest req) g.cache)) [
      | inr (hit, e) ↦ rw (complete, on, e) h
      | inl e ↦
          rw (complete, on, e)
            (remember-lookup (or_default cache true) (digest req) (p.complete req g.provider) _ key
              res (λ same. e) h)
    ]
  ]

  -- Further calls of `complete`, whether each returns or throws.
  abbrev pub run : List (CompletionRequest × Option Bool) → Gateway p.State → Gateway p.State
  run [] g = g
  run ((req, cache) ∷ calls) g = run calls (complete p digest req cache g).1

  run-lookup :
      (calls : List (CompletionRequest × Option Bool)) (g : Gateway p.State) (key : String)
      (res : CompletionResponse)
      → lookup key g.cache ≡ some res
      → lookup key (run calls g).cache ≡ some res
  run-lookup [] g key res h = h
  run-lookup ((req, cache) ∷ calls) g key res h =
      run-lookup calls (complete p digest req cache g).1 key res
        (complete-lookup req cache g key res h)

  remember-stored :
      (made : String) (r : Result CompletionResponse × p.State) (g : Gateway p.State)
      (res : CompletionResponse)
      → (remember p digest true made r g).0 ≡ ok res
      → lookup made (remember p digest true made r g).1.cache ≡ some res
  remember-stored made (err e, s) g res h = absurd (ground (arith, h))
  remember-stored made (ok new, s) g res h =
      let same : new ≡ res = ground (arith, h) in lookup-insert_self made new g.cache ∙ ap some same

  stored :
      (req : CompletionRequest) (g : Gateway p.State) (res : CompletionResponse)
      → (complete p digest req none g).0 ≡ ok res
      → lookup (digest req) (complete p digest req none g).1.cache ≡ some res
  unfolding complete
  stored req g res h = elim (Option-cases (lookup (digest req) g.cache)) [
    | inr (hit, e) ↦ let same : hit ≡ res = ground (arith, e) in rw (complete, e) (e ∙ ap some same)
    | inl e ↦
        let now : complete p digest req none g ≡ ask p digest true (digest req) req g =
          rw (complete, e) refl in
        ap (λ x. lookup (digest req) x.1.cache) now
        ∙ remember-stored (digest req) (p.complete req g.provider) _ res
            (sym (ap (λ x. x.0) now) ∙ h)
  ]

  -- After a completion with the cache returned an answer, and any further completions, with
  -- the cache or not, the same request is given the same answer, and neither the provider is
  -- called nor the gateway changed.
  pub complete-run :
      (req : CompletionRequest) (calls : List (CompletionRequest × Option Bool))
      (g : Gateway p.State) (res : CompletionResponse)
      → (complete p digest req none g).0 ≡ ok res
      → let g' = run calls (complete p digest req none g).1 in
        complete p digest req none g' ≡ (ok res, g')
  unfolding complete
  complete-run req calls g res h =
      let kept =
        run-lookup calls (complete p digest req none g).1 (digest req) res (stored req g res h) in
      rw (complete, kept) refl
