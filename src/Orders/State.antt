-- ===== src/Orders/State.antt =====
-- src/vertical/restaurants/order-state.ts
pub mod Diagram
use peer_core.Base.{ℕ, Bool, List, [], ◌∷◌, ◌==◌, any}

pub data OrderStatus : Type 0 where
  new accepted preparing ready out_for_delivery picked_up delivered complete rejected cancelled :
      OrderStatus

abbrev code_of : OrderStatus → ℕ
code_of new = 0
code_of accepted = 1
code_of preparing = 2
code_of ready = 3
code_of out_for_delivery = 4
code_of picked_up = 5
code_of delivered = 6
code_of complete = 7
code_of rejected = 8
code_of cancelled = 9

-- `===` on the status texts.
abbrev pub same_status : OrderStatus → OrderStatus → Bool
same_status s t = code_of s == code_of t

-- `statuses.includes(status)`
abbrev pub includes : List OrderStatus → OrderStatus → Bool
includes ss s = any (λ t. same_status t s) ss

legal : OrderStatus → List OrderStatus
legal new = accepted ∷ rejected ∷ cancelled ∷ []
legal accepted = preparing ∷ cancelled ∷ []
legal preparing = ready ∷ cancelled ∷ []
legal ready = out_for_delivery ∷ picked_up ∷ []
legal out_for_delivery = delivered ∷ []
legal picked_up = complete ∷ []
legal delivered = complete ∷ []
legal complete = []
legal rejected = []
legal cancelled = []

unfoldable pub can_transition : OrderStatus → OrderStatus → Bool
unfolding legal
can_transition from to = includes (legal from) to
