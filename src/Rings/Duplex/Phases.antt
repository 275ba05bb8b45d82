-- ===== src/Rings/Duplex/Phases.antt =====
-- The two processes take turns: which blocks are in use and what is in the rings, by where both are.
use dpdk_folder.Prelude.{ℕ, ◌*◌, ◌<◌, ◌≤◌, ◌≡◌, pos, negsuc, List, [], ◌∷◌, ◌⊎◌}
use dpdk_folder.Rings.Duplex.{
  Primary, at_round, filled, sent, noted, replied, told, stopping, stopped, Secondary, listening,
  received, computed, answering, answered, finished, System,
}

-- The secondary waits for a message, though it may still have to print.
abbrev pub WhileListening : Secondary → Type 0 → Type 0
WhileListening listening X = X
WhileListening (answered reply) X = X
WhileListening _ X = ⊥

abbrev pub RingsAre : System → List ℕ → List ℕ → Type 0
RingsAre s ring1 ring2 = (s.ring1 ≡ ring1) × (s.ring2 ≡ ring2)

-- The message is on its way, or the reply is.
abbrev pub OnItsWay : (i msg : ℕ) → System → Type 0
OnItsWay i msg s =
    (RingsAre s (msg ∷ []) [] × (s.heap ≡ (msg, pos i) ∷ []))
    ⊎ ((r : ℕ) × RingsAre s [] (r ∷ []) × (s.heap ≡ (r, pos (i * 10)) ∷ []))

abbrev pub Exchange : Secondary → (i msg : ℕ) → System → Type 0
Exchange listening i msg s = OnItsWay i msg s
Exchange (answered reply) i msg s = OnItsWay i msg s
Exchange (received val) i msg s = (val ≡ msg) × RingsAre s [] [] × (s.heap ≡ (msg, pos i) ∷ [])
Exchange (computed res) i msg s = (res ≡ pos (i * 10)) × RingsAre s [] [] × (s.heap ≡ [])
Exchange (answering reply) i msg s = RingsAre s [] [] × (s.heap ≡ (reply, pos (i * 10)) ∷ [])
Exchange finished i msg s = ⊥

abbrev pub AtEnd : Secondary → System → Type 0
AtEnd listening s = (stop : ℕ) × RingsAre s (stop ∷ []) [] × (s.heap ≡ (stop, negsuc 0) ∷ [])
AtEnd (answered reply) s = (stop : ℕ) × RingsAre s (stop ∷ []) [] × (s.heap ≡ (stop, negsuc 0) ∷ [])
AtEnd (received val) s = RingsAre s [] [] × (s.heap ≡ (val, negsuc 0) ∷ [])
AtEnd finished s = RingsAre s [] [] × (s.heap ≡ [])
AtEnd _ s = ⊥

abbrev pub Phase : Primary → Secondary → System → Type 0
Phase (at_round i) S s = WhileListening S ((i ≤ 10) × RingsAre s [] [] × (s.heap ≡ []))
Phase (filled i msg) S s =
    WhileListening S ((i < 10) × RingsAre s [] [] × (s.heap ≡ (msg, pos i) ∷ []))
Phase (sent i msg) S s = (i < 10) × Exchange S i msg s
Phase (noted i msg) S s = (i < 10) × Exchange S i msg s
Phase (replied i msg reply) S s =
    WhileListening S ((i < 10) × RingsAre s [] [] × (s.heap ≡ (reply, pos (i * 10)) ∷ []))
Phase (told i reply) S s =
    WhileListening S ((i < 10) × RingsAre s [] [] × (s.heap ≡ (reply, pos (i * 10)) ∷ []))
Phase (stopping stop) S s = WhileListening S (RingsAre s [] [] × (s.heap ≡ (stop, negsuc 0) ∷ []))
Phase stopped S s = AtEnd S s

abbrev pub InPhase : System → Type 0
InPhase s = Phase s.primary s.secondary s

pub WhileListening-map :
    (S : Secondary) {X Y : Type 0} → (X → Y) → WhileListening S X → WhileListening S Y
WhileListening-map listening f x = f x
WhileListening-map (answered reply) f x = f x
WhileListening-map (received val) f x = absurd x
WhileListening-map (computed res) f x = absurd x
WhileListening-map (answering reply) f x = absurd x
WhileListening-map finished f x = absurd x
