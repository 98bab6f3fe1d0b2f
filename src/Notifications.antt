-- ===== src/Notifications.antt =====
-- src/modules/notifications/notification.service.ts. The channel adapters are parameters: what they
-- change is a state of their own, and they may throw.
pub mod Once
mod Tests
use peer_core.Orders.Services.{sms, whatsapp, NotifyInput, Channel}
use peer_core.Errors.{unique_violation, database}
use peer_core.Tenancy.Rows.{select_one, Scoped}
use peer_core.Tenancy.{with_tenant, Uuid}
use peer_core.Base.{
  ◌++◌, ◌==◌, ◌&&◌, str_eq, any, if◌then◌else◌, Bool, truthy, String, List, [], ◌∷◌, none, some,
  true, false, refl, zero, suc, inl, inr, Option, find, ap,
}
use peer_core.Orders.Tables.{
  CatalogItem-scoped, MenuAvailability-scoped, Branch-scoped, Promotion-scoped, Order-scoped,
  OrderItem-scoped, OrderEvent-scoped, LoyaltyAccount-scoped,
}
use peer_core.Action.{statement, ◌>>=◌, ◌>>◌, execute, pure, query, call, Action, Result, ok, err}
use peer_core.Base.Int.{pos, negsuc}

pub record Notification : Type 0 where
  pub id : Uuid
  pub tenant_id : Uuid
  pub recipient : String
  pub channel : Channel
  pub event : String
  pub body : String
  pub dedupe_key : Option String

pub record OptOut : Type 0 where
  pub tenant_id : Uuid
  pub recipient : String
  pub channel : Channel

pub record Notices : Type 0 where
  pub notifications : List Notification
  pub optouts : List OptOut

pub data NotifyResult : Type 0 where
  sent : Uuid → NotifyResult
  deduped opted_out : NotifyResult

instance abbrev pub Notification-scoped : Scoped Notification
Notification-scoped = record { tenant_of = λ r. r.tenant_id }

instance abbrev pub OptOut-scoped : Scoped OptOut
OptOut-scoped = record { tenant_of = λ r. r.tenant_id }

abbrev pub same_channel : Channel → Channel → Bool
same_channel sms sms = true
same_channel whatsapp whatsapp = true
same_channel _ _ = false

abbrev pub is_out : String → Channel → OptOut → Bool
is_out recipient channel o = str_eq o.recipient recipient && same_channel o.channel channel

abbrev pub has_dedupe : String → Notification → Bool
has_dedupe key n = elim n.dedupe_key [ none ↦ false | some k ↦ str_eq k key ]

-- The notification that was recorded with the key; an empty key is no key.
abbrev pub earlier : Uuid → Option String → Notices → Option Notification
earlier t key db = elim (truthy key) [
  | none ↦ none
  | some k ↦ select_one t (has_dedupe k) db.notifications
]

abbrev pub notice : Uuid → Uuid → NotifyInput → Notification
notice t id input = record {
  id = id;
  tenant_id = t;
  recipient = input.recipient;
  channel = input.channel;
  event = input.event;
  body = input.body;
  dedupe_key = input.dedupe_key;
}

-- uq_notifications_dedupe of drizzle/0008_lifecycle.sql.
abbrev pub is_repeated : Notification → List Notification → Bool
is_repeated n rows = elim n.dedupe_key [
  | none ↦ false
  | some k ↦ any (λ r. (r.tenant_id == n.tenant_id) && has_dedupe k r) rows
]

abbrev pub insert_notice : Notification → Notices → Result NotifyResult × Notices
insert_notice n db =
    if is_repeated n db.notifications
    then (err (database unique_violation), db)
    else (ok (sent n.id), record db { notifications = db.notifications ++ n ∷ [] })

module _ {X : Type 0} (send : Channel → String → String → X → Result (Unit {0}) × X) where
  abbrev pub deliver : Uuid → Uuid → NotifyInput → Action Notices X NotifyResult
  deliver t id input =
      call (send input.channel input.recipient input.body)
      >> statement (insert_notice (notice t id input))

  abbrev pub unless_repeated :
      Uuid → Uuid → NotifyInput → Option Notification → Action Notices X NotifyResult
  unless_repeated t id input (some existing) = pure deduped
  unless_repeated t id input none = deliver t id input

  abbrev pub unless_out : Uuid → Uuid → NotifyInput → Option OptOut → Action Notices X NotifyResult
  unless_out t id input (some o) = pure opted_out
  unless_out t id input none = query (earlier t input.dedupe_key) >>= unless_repeated t id input

  -- The transaction of `notify`; `id` is what Postgres draws for the row.
  unfoldable pub notify_in : Uuid → Uuid → NotifyInput → Action Notices X NotifyResult
  notify_in t id input =
      query (λ db. select_one t (is_out input.recipient input.channel) db.optouts)
      >>= unless_out t id input

  unfoldable pub notify : String → Uuid → NotifyInput → Action Notices X NotifyResult
  notify tenant_id id input = with_tenant tenant_id (λ t. notify_in t id input)

  unfoldable pub opt_out : String → String → Channel → Action Notices X (Unit {0})
  opt_out tenant_id recipient channel = with_tenant tenant_id (λ t. execute (λ db.
      elim (select_one t (is_out recipient channel) db.optouts) [
        | some o ↦ db
        | none ↦ record db {
          optouts =
              db.optouts ++ record { tenant_id = t; recipient = recipient; channel = channel } ∷ [];
        }
      ]))
