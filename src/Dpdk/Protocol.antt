-- ===== src/Dpdk/Protocol.antt =====
-- What a part of the library asks of its user, as a state machine over the trace: which calls it is
-- concerned with, when each is allowed, and what a call that succeeded changes.
use dpdk_folder.Dpdk.Calls.{Request, Event, int_of, word_of, burst_of, did, Trace}
use dpdk_folder.Prelude.{is_neg, Bool, true, [], ◌∷◌, ◌≡◌, if◌then◌else◌, ◌==◌}

pub record Protocol : Type 1 where
  pub State : Type 0
  pub fresh : State
  pub concerns : Request → Bool
  pub Allowed : Request → State → Type 0
  pub succeed : Request → State → State

abbrev pub request_of : Event → Request
request_of (int_of r _) = r
request_of (word_of r _) = r
request_of (burst_of r _) = r
request_of (did r) = r

module _ (P : Protocol) where
  -- A call fails by a negative result, or by NULL. One that returns nothing does not fail.
  abbrev pub advance : Event → P.State → P.State
  advance (int_of r x) s = if is_neg x then s else P.succeed r s
  advance (word_of r x) s = if x == 0 then s else P.succeed r s
  advance (did r) s = P.succeed r s
  advance _ s = s

  abbrev pub state_after : Trace → P.State
  state_after [] = P.fresh
  state_after (e ∷ h) =
      let s = state_after h in if P.concerns (request_of e) then advance e s else s

  -- Every call of the trace was allowed when it was made.
  abbrev pub Follows : Trace → Type 0
  Follows [] = Unit {0}
  Follows (e ∷ h) =
      (P.concerns (request_of e) ≡ true → P.Allowed (request_of e) (state_after h)) × Follows h
