-- ===== src/Notifications/Once.antt =====
-- A notification with a key goes out once (src/modules/notifications/notification.service.ts).
use peer_core.Base.{
  truthy-some, ◌∙◌, eq_iff, ◌⊎◌, Option-cases, refl, Bool-cases, ◌++◌, List, arith, Bool, ◌≡◌,
  truthy, String, [], ◌∷◌, some, true, inl, inr, Option, ap,
}
use peer_core.Notifications.{
  is_repeated, opted_out, is_out, earlier, has_dedupe, deduped, Notification-scoped, OptOut-scoped,
  notice, sent, Notices, notify_in, Notification,
}
use peer_core.Tenancy.{Uuid}
use peer_core.Tenancy.Rows.{sees, select_one}
use peer_core.Orders.Services.{NotifyInput, Channel}
use peer_core.Orders.Tables.{
  CatalogItem-scoped, MenuAvailability-scoped, Branch-scoped, Promotion-scoped, Order-scoped,
  OrderItem-scoped, OrderEvent-scoped, LoyaltyAccount-scoped,
}
use peer_core.Action.{Result-cases, World, Result, ok}

select-concat :
    (t : Uuid) (p : Notification → Bool) (n : Notification) (rows : List Notification)
    → n.tenant_id ≡ t
    → p n ≡ true
    → (r : Notification) × (select_one t p (rows ++ n ∷ []) ≡ some r)
unfolding select_one
select-concat t p n [] own hit = (n, ground arith)
select-concat t p n (x ∷ rows) own hit = elim (Bool-cases (sees t p x)) [
  | inl here ↦ (x, rw here refl)
  | inr there ↦ let (r, e) = select-concat t p n rows own hit in (r, rw there e)
]

module _ {X : Type 0} (send : Channel → String → String → X → Result (Unit {0}) × X)
    (t : Uuid) where
  -- What a notification that was sent leaves.
  sent-rows :
      (id made : Uuid) (input : NotifyInput) (w w' : World Notices X)
      → notify_in send t id input w ≡ (ok (sent made), w')
      → w'.db.notifications ≡ w.db.notifications ++ notice t id input ∷ []
  unfolding notify_in
  sent-rows id made input w w' h =
      elim (Option-cases (select_one t (is_out input.recipient input.channel) w.db.optouts)) [
        | inr (o, e) ↦ absurd (ground arith)
        | inl e ↦ elim (Option-cases (earlier t input.dedupe_key w.db)) [
          | inr (n, f) ↦ absurd (ground arith)
          | inl f ↦
              elim (Result-cases (send input.channel input.recipient input.body w.outside).0) [
                | inr (x, g) ↦ absurd (ground arith)
                | inl (u, g) ↦
                    elim (Bool-cases (is_repeated (notice t id input) w.db.notifications)) [
                      | inl b ↦ absurd (ground arith)
                      | inr b ↦ ground arith
                    ]
              ]
        ]
      ]

  has_dedupe_self : (n : Notification) (k : String) → n.dedupe_key ≡ some k → has_dedupe k n ≡ true
  has_dedupe_self n k e = ground (arith, eq_iff k k)

  earlier-key :
      (key : Option String) (k : String) (db : Notices)
      → truthy key ≡ some k
      → earlier t key db ≡ select_one t (has_dedupe k) db.notifications
  earlier-key key k db h = ground arith

  found_again :
      (id made : Uuid) (input : NotifyInput) (k : String) (w w' : World Notices X)
      → truthy input.dedupe_key ≡ some k
      → notify_in send t id input w ≡ (ok (sent made), w')
      → (r : Notification) × (earlier t input.dedupe_key w'.db ≡ some r)
  found_again id made input k w w' key h =
      let n = notice t id input in
      let (r, e) =
        select-concat t (has_dedupe k) n w.db.notifications refl
          (has_dedupe_self n k (truthy-some input.dedupe_key k key)) in
      (
        r,
        earlier-key input.dedupe_key k w'.db key
            ∙ ap (select_one t (has_dedupe k)) (sent-rows id made input w w' h)
            ∙ e,
      )

  -- After a notification that was sent with a key that is not empty, another one with the same key for
  -- the same tenant, to whomever and whatever it says, is sent to nobody and recorded nowhere: the
  -- answer is that it was deduped, or that its recipient has opted out.
  pub notify_in-once :
      (id made id' : Uuid) (first second : NotifyInput) (k : String) (w w' : World Notices X)
      → truthy first.dedupe_key ≡ some k
      → second.dedupe_key ≡ first.dedupe_key
      → notify_in send t id first w ≡ (ok (sent made), w')
      → (notify_in send t id' second w' ≡ (ok deduped, w'))
        ⊎ (notify_in send t id' second w' ≡ (ok opted_out, w'))
  unfolding notify_in
  notify_in-once id made id' first second k w w' key same h =
      elim (Option-cases (select_one t (is_out second.recipient second.channel) w'.db.optouts)) [
        | inr (o, e) ↦ inr (rw (notify_in, e) refl)
        | inl e ↦
            let (r, f) = found_again id made first k w w' key h in
            let again : earlier t second.dedupe_key w'.db ≡ some r =
              ap (λ x. earlier t x w'.db) same ∙ f in
            inl (rw (notify_in, e, again) refl)
      ]
