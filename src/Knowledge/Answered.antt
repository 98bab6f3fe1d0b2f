-- ===== src/Knowledge/Answered.antt =====
-- What a reply to a diner can draw on (src/modules/agent/conversation.service.ts).
use peer_core.Base.Sorting.{take}
use peer_core.Tenancy.Rows.{select}
use peer_core.Inference.{
  CompletionResponse, complete, Gateway, embed, CompletionRequest, InferenceProvider,
}
use peer_core.Base.{sym, ◌∙◌, map, List, ◌≡◌, ℕ, String, none, some, true, refl, inl, inr, ap}
use peer_core.Action.{Result, Result-cases, World, ok, err}
use peer_core.Tenancy.{Uuid, uuid_of, with_tenant}
use peer_core.Knowledge.{
  AgentReply, prompt, Retrieved, KbDocument, ranked, Lore, search_kb, reply, Floats,
  KbDocument-scoped,
}

module _ (p : InferenceProvider) (digest : CompletionRequest → String) (fl : Floats p.Float) where
  abbrev concluded :
      List (Retrieved p.Float)
      → Result CompletionResponse × Gateway p.State
      → Lore (List p.Float)
      → Result AgentReply × World (Lore (List p.Float)) (Gateway p.State)
  concluded hits (err x, g) db = (err x, record { db = db; outside = g })
  concluded hits (ok res, g) db = (
    ok (record { text = res.text; sources = map (λ h. h.id) hits }),
    record { db = db; outside = g },
  )

  -- What is answered, from the documents of the tenant and the gateway alone.
  abbrev answered :
      String
      → ℕ
      → List (KbDocument (List p.Float))
      → Result (List p.Float) × Gateway p.State
      → Lore (List p.Float)
      → Result AgentReply × World (Lore (List p.Float)) (Gateway p.State)
  answered message k docs (err x, g) db = (err x, record { db = db; outside = g })
  answered message k docs (ok q, g) db =
      let hits = take k (ranked p digest fl q docs) in
      concluded hits (complete p digest (prompt p digest fl message hits) none g) db

  reply-answered :
      (tenant_id : String) (t : Uuid) (message : String) (k : ℕ)
      (w : World (Lore (List p.Float)) (Gateway p.State))
      → uuid_of tenant_id ≡ some t
      → reply p digest fl tenant_id message k w
        ≡ answered message k
            (select t (λ d. true) w.db.documents)
            (embed p digest message w.outside)
            w.db
  unfolding reply search_kb with_tenant
  reply-answered tenant_id t message k w e =
      elim (Result-cases (embed p digest message w.outside).0) [
        | inr (x, f) ↦ rw (reply, search_kb, answered, f) refl
        | inl (q, f) ↦
            let hits = take k (ranked p digest fl q (select t (λ d. true) w.db.documents)) in
            elim (Result-cases
              (complete p digest (prompt p digest fl message hits) none
                (embed p digest message w.outside).1).0) [
                  | inr (x, g) ↦
                      rw (reply, search_kb, answered, f, with_tenant, e, concluded, g) refl
                  | inl (res, g) ↦
                      rw (reply, search_kb, answered, f, with_tenant, e, concluded, g) refl
                ]
      ]

  concluded-lore :
      (hits : List (Retrieved p.Float)) (r : Result CompletionResponse × Gateway p.State)
      (db db' : Lore (List p.Float))
      → ((concluded hits r db).0 ≡ (concluded hits r db').0)
        × ((concluded hits r db).1.outside ≡ (concluded hits r db').1.outside)
        × ((concluded hits r db).1.db ≡ db)
  concluded-lore hits (err x, g) db db' = (refl, refl, refl)
  concluded-lore hits (ok res, g) db db' = (refl, refl, refl)

  answered-lore :
      (message : String) (k : ℕ) (docs : List (KbDocument (List p.Float)))
      (r : Result (List p.Float) × Gateway p.State) (db db' : Lore (List p.Float))
      → ((answered message k docs r db).0 ≡ (answered message k docs r db').0)
        × ((answered message k docs r db).1.outside ≡ (answered message k docs r db').1.outside)
        × ((answered message k docs r db).1.db ≡ db)
  answered-lore message k docs (err x, g) db db' = (refl, refl, refl)
  answered-lore message k docs (ok q, g) db db' =
      let hits = take k (ranked p digest fl q docs) in
      concluded-lore hits (complete p digest (prompt p digest fl message hits) none g) db db'

  -- For a tenant id that is a UUID, a reply depends on the gateway and on the documents of
  -- the tenant alone: where two states agree on these, it answers the same, or throws the
  -- same, and leaves the gateway in the same state. It changes no table.
  pub reply-isolated :
      (tenant_id : String) (t : Uuid) (message : String) (k : ℕ)
      (w v : World (Lore (List p.Float)) (Gateway p.State))
      → uuid_of tenant_id ≡ some t
      → select t (λ d. true) w.db.documents ≡ select t (λ d. true) v.db.documents
      → w.outside ≡ v.outside
      → let (said, w') = reply p digest fl tenant_id message k w in
        (said ≡ (reply p digest fl tenant_id message k v).0)
        × (w'.outside ≡ (reply p digest fl tenant_id message k v).1.outside)
        × (w'.db ≡ w.db)
  reply-isolated tenant_id t message k w v e docs same =
      let left = reply-answered tenant_id t message k w e in
      let right = reply-answered tenant_id t message k v e in
      let rows = select t (λ d. true) v.db.documents in
      let asked = embed p digest message v.outside in
      let here = left ∙ rw (docs, same) refl in
      let (said, after, kept) = answered-lore message k rows asked w.db v.db in
      (
        ap (λ x. x.0) here ∙ said ∙ sym (ap (λ x. x.0) right),
        ap (λ x. x.1.outside) here ∙ after ∙ sym (ap (λ x. x.1.outside) right),
        ap (λ x. x.1.db) here ∙ kept,
      )
