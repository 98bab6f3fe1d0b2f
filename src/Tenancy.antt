-- ===== src/Tenancy.antt =====
-- src/modules/tenancy: the tenant context of a transaction, and what row-level security
-- (drizzle/0001_rls.sql and the policies of the later migrations) lets a statement see.
pub mod Rows
pub mod Isolation
pub mod Keeps
pub mod Keys
mod Tests
use peer_core.Base.{
  ℕ, zero, suc, ◌+◌, ◌-◌, ◌*◌, String, Option, none, some, List, [], ◌∷◌, ◌&&◌, leb, ◌==◌,
  if◌then◌else◌, codes,
}
use peer_core.Errors.{plain}
use peer_core.Action.{Action, throw, transaction}

-- A `uuid` by its 128-bit value.
abbrev pub Uuid : Type 0
Uuid = ℕ

-- The value of a digit of `[0-9a-f]`, upper case allowed by the flag `i`.
hex_digit : ℕ → Option ℕ
hex_digit c =
    if leb b'0' c && leb c b'9'
    then some (c - 48)
    else if leb b'a' c && leb c b'f'
    then some (c - 87)
    else if leb b'A' c && leb c b'F'
    then some (c - 55)
    else none

-- Reads the rest of the groups `n ∷ ns`, with dashes between two groups and the end after the
-- last; `acc` is the value of the digits so far.
read_groups : ℕ → ℕ → List ℕ → List ℕ → Option ℕ
unfolding hex_digit
read_groups acc zero [] [] = some acc
read_groups acc zero [] (c ∷ cs) = none
read_groups acc zero (n ∷ ns) [] = none
read_groups acc zero (n ∷ ns) (c ∷ cs) =
    let rest = read_groups acc n ns cs in if c == b'-' then rest else none
read_groups acc (suc n) ns [] = none
read_groups acc (suc n) ns (c ∷ cs) = elim (hex_digit c) [
  | none ↦ none
  | some d ↦ read_groups (16 * acc + d) n ns cs
]

-- `UUID_RE.test(tenantId)`, with the value that Postgres reads from a text that passes.
unfoldable pub uuid_of : String → Option Uuid
unfolding read_groups
uuid_of s = read_groups 0 8 (4 ∷ 4 ∷ 4 ∷ 12 ∷ []) (codes s)

module _ {D X A : Type 0} where
  -- `withTenant`, and `TenancyService.runAs`: `fn` is given `current_tenant_id()`.
  unfoldable pub with_tenant : String → (Uuid → Action D X A) → Action D X A
  with_tenant tenant_id fn = elim (uuid_of tenant_id) [
    | none ↦ throw plain
    | some t ↦ transaction (fn t)
  ]
