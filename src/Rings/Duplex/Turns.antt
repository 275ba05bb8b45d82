-- ===== src/Rings/Duplex/Turns.antt =====
-- What each step does to the phase, wherever the other process is.
use dpdk_folder.Prelude.{
  ℕ, ◌*◌, ◌≤◌, ◌≡◌, ◌≢◌, refl, sym, ap, ◌∙◌, arith, ℤ, pos, negsuc, List, [], ◌∷◌, ◌++◌, length,
  Option, some, inl, inr,
}
use dpdk_folder.Dpdk.Malloc.{value_at, free, value_at-first, free-first}
use dpdk_folder.Rings.Duplex.{
  Primary, at_round, filled, sent, noted, replied, told, stopping, stopped, Secondary, listening,
  received, computed, answering, answered, finished, System, capacity, times_ten,
}
use dpdk_folder.Rings.Duplex.Phases.{OnItsWay, Phase}

-- The steps of the primary, wherever the secondary is.
pub sends-InPhase :
    (S : Secondary) (i msg : ℕ) (s : System)
    → Phase (filled i msg) S s
    → Phase (sent i msg) S (record s { primary = sent i msg; ring1 = s.ring1 ++ msg ∷ [] })
sends-InPhase listening i msg s (lt, (r1, r2), h) = (lt, inl ((rw r1 refl, r2), h))
sends-InPhase (answered reply) i msg s (lt, (r1, r2), h) = (lt, inl ((rw r1 refl, r2), h))
sends-InPhase (received val) i msg s l = absurd l
sends-InPhase (computed res) i msg s l = absurd l
sends-InPhase (answering reply) i msg s l = absurd l
sends-InPhase finished i msg s l = absurd l

-- What the primary prints does not change the phase.
pub notes-InPhase :
    (S : Secondary) (i msg : ℕ) (s : System) (t : List (Option ℤ))
    → Phase (sent i msg) S s
    → Phase (noted i msg) S (record s { primary = noted i msg; primary_told = t })
notes-InPhase listening i msg s t h = h
notes-InPhase (answered reply) i msg s t h = h
notes-InPhase (received val) i msg s t h = h
notes-InPhase (computed res) i msg s t h = h
notes-InPhase (answering reply) i msg s t h = h
notes-InPhase finished i msg s t h = h

reply-OnItsWay :
    (i msg reply : ℕ) (rest : List ℕ) (s : System)
    → s.ring2 ≡ reply ∷ rest
    → OnItsWay i msg s
    → (s.ring1 ≡ []) × (rest ≡ []) × (s.heap ≡ (reply, pos (i * 10)) ∷ [])
reply-OnItsWay i msg reply rest s e (inl ((r1, r2), h)) = cc
reply-OnItsWay i msg reply rest s e (inr (r, (r1, r2), h)) =
    let both : reply ∷ rest ≡ r ∷ [] = sym e ∙ r2 in
    let (same, nil) : (reply ≡ r) × (rest ≡ []) = (cc, cc) in (r1, nil, rw same h)

pub gets_reply-InPhase :
    (S : Secondary) (i msg reply : ℕ) (rest : List ℕ) (s : System)
    → s.ring2 ≡ reply ∷ rest
    → Phase (noted i msg) S s
    → Phase (replied i msg reply) S (record s { primary = replied i msg reply; ring2 = rest })
gets_reply-InPhase listening i msg reply rest s e (lt, way) =
    let (r1, nil, h) = reply-OnItsWay i msg reply rest s e way in (lt, (r1, nil), h)
gets_reply-InPhase (answered r) i msg reply rest s e (lt, way) =
    let (r1, nil, h) = reply-OnItsWay i msg reply rest s e way in (lt, (r1, nil), h)
gets_reply-InPhase (received val) i msg reply rest s e (lt, (_, (r1, r2), h)) = cc
gets_reply-InPhase (computed res) i msg reply rest s e (lt, (_, (r1, r2), h)) = cc
gets_reply-InPhase (answering r) i msg reply rest s e (lt, ((r1, r2), h)) = cc
gets_reply-InPhase finished i msg reply rest s e (lt, l) = absurd l

pub sends_stop-InPhase :
    (S : Secondary) (stop : ℕ) (s : System)
    → Phase (stopping stop) S s
    → Phase stopped S (record s { primary = stopped; ring1 = s.ring1 ++ stop ∷ [] })
sends_stop-InPhase listening stop s ((r1, r2), h) = (stop, (rw r1 refl, r2), h)
sends_stop-InPhase (answered reply) stop s ((r1, r2), h) = (stop, (rw r1 refl, r2), h)
sends_stop-InPhase (received val) stop s l = absurd l
sends_stop-InPhase (computed res) stop s l = absurd l
sends_stop-InPhase (answering reply) stop s l = absurd l
sends_stop-InPhase finished stop s l = absurd l

-- With at most one pointer in it the ring is not full.
pub loses_stop-impossible :
    (S : Secondary) (stop : ℕ) (s : System)
    → capacity ≤ length s.ring1
    → Phase (stopping stop) S s
    → ⊥
loses_stop-impossible listening stop s full ((r1, r2), h) = omega (arith, ap length r1)
loses_stop-impossible (answered reply) stop s full ((r1, r2), h) = omega (arith, ap length r1)
loses_stop-impossible (received val) stop s full l = l
loses_stop-impossible (computed res) stop s full l = l
loses_stop-impossible (answering reply) stop s full l = l
loses_stop-impossible finished stop s full l = l

-- The steps of the secondary, wherever the primary is.
pub gets_message-InPhase :
    (P : Primary) (val : ℕ) (rest : List ℕ) (s : System)
    → s.ring1 ≡ val ∷ rest
    → Phase P listening s
    → Phase P (received val) (record s { secondary = received val; ring1 = rest })
gets_message-InPhase (at_round i) val rest s e (le, (r1, r2), h) = cc
gets_message-InPhase (filled i msg) val rest s e (lt, (r1, r2), h) = cc
gets_message-InPhase (sent i msg) val rest s e (lt, inl ((r1, r2), h)) =
    let both : val ∷ rest ≡ msg ∷ [] = sym e ∙ r1 in (lt, (cc, (cc, r2), h))
gets_message-InPhase (noted i msg) val rest s e (lt, inl ((r1, r2), h)) =
    let both : val ∷ rest ≡ msg ∷ [] = sym e ∙ r1 in (lt, (cc, (cc, r2), h))
gets_message-InPhase (sent i msg) val rest s e (lt, inr (r, (r1, r2), h)) = cc
gets_message-InPhase (noted i msg) val rest s e (lt, inr (r, (r1, r2), h)) = cc
gets_message-InPhase (replied i msg reply) val rest s e (lt, (r1, r2), h) = cc
gets_message-InPhase (told i reply) val rest s e (lt, (r1, r2), h) = cc
gets_message-InPhase (stopping stop) val rest s e ((r1, r2), h) = cc
gets_message-InPhase stopped val rest s e (stop, (r1, r2), h) =
    let both : val ∷ rest ≡ stop ∷ [] = sym e ∙ r1 in
    let same : stop ≡ val = cc in ((cc, r2), rw (sym same) h)

pub finishes-InPhase :
    (P : Primary) (val : ℕ) (s : System)
    → value_at val s.heap ≡ some (negsuc 0)
    → Phase P (received val) s
    → Phase P finished (record s { secondary = finished; heap = free val s.heap })
finishes-InPhase (at_round i) val s e l = absurd l
finishes-InPhase (filled i msg) val s e l = absurd l
finishes-InPhase (sent i msg) val s e (lt, (same, (r1, r2), h)) =
    let holds : value_at val s.heap ≡ some (pos i) = rw (h, same) (value_at-first msg (pos i) []) in
    cc
finishes-InPhase (noted i msg) val s e (lt, (same, (r1, r2), h)) =
    let holds : value_at val s.heap ≡ some (pos i) = rw (h, same) (value_at-first msg (pos i) []) in
    cc
finishes-InPhase (replied i msg reply) val s e l = absurd l
finishes-InPhase (told i reply) val s e l = absurd l
finishes-InPhase (stopping stop) val s e l = absurd l
finishes-InPhase stopped val s e ((r1, r2), h) = ((r1, r2), rw h (free-first val (negsuc 0) []))

pub computes-InPhase :
    (P : Primary) (val : ℕ) (v : ℤ) (s : System)
    → value_at val s.heap ≡ some v
    → v ≢ negsuc 0
    → Phase P (received val) s
    → Phase P
        (computed (times_ten v))
        (record s { secondary = computed (times_ten v); heap = free val s.heap })
computes-InPhase (at_round i) val v s e ne l = absurd l
computes-InPhase (filled i msg) val v s e ne l = absurd l
computes-InPhase (sent i msg) val v s e ne (lt, (same, (r1, r2), h)) =
    let holds : value_at val s.heap ≡ some (pos i) = rw (h, same) (value_at-first msg (pos i) []) in
    let v_is : v ≡ pos i = cc in
    (lt, (rw v_is refl, (r1, r2), rw (h, same) (free-first msg (pos i) [])))
computes-InPhase (noted i msg) val v s e ne (lt, (same, (r1, r2), h)) =
    let holds : value_at val s.heap ≡ some (pos i) = rw (h, same) (value_at-first msg (pos i) []) in
    let v_is : v ≡ pos i = cc in
    (lt, (rw v_is refl, (r1, r2), rw (h, same) (free-first msg (pos i) [])))
computes-InPhase (replied i msg reply) val v s e ne l = absurd l
computes-InPhase (told i reply) val v s e ne l = absurd l
computes-InPhase (stopping stop) val v s e ne l = absurd l
computes-InPhase stopped val v s e ne ((r1, r2), h) =
    let holds : value_at val s.heap ≡ some (negsuc 0) = rw h (value_at-first val (negsuc 0) []) in
    let v_is : v ≡ negsuc 0 = cc in absurd (ne v_is)

pub fills_reply-InPhase :
    (P : Primary) (res : ℤ) (reply : ℕ) (s : System)
    → Phase P (computed res) s
    → Phase P
        (answering reply)
        (record s { secondary = answering reply; heap = (reply, res) ∷ s.heap })
fills_reply-InPhase (at_round i) res reply s l = absurd l
fills_reply-InPhase (filled i msg) res reply s l = absurd l
fills_reply-InPhase (sent i msg) res reply s (lt, (same, (r1, r2), h)) =
    (lt, ((r1, r2), rw (h, same) refl))
fills_reply-InPhase (noted i msg) res reply s (lt, (same, (r1, r2), h)) =
    (lt, ((r1, r2), rw (h, same) refl))
fills_reply-InPhase (replied i msg r) res reply s l = absurd l
fills_reply-InPhase (told i r) res reply s l = absurd l
fills_reply-InPhase (stopping stop) res reply s l = absurd l
fills_reply-InPhase stopped res reply s l = absurd l

pub sends_reply-InPhase :
    (P : Primary) (reply : ℕ) (s : System)
    → Phase P (answering reply) s
    → Phase P
        (answered reply)
        (record s { secondary = answered reply; ring2 = s.ring2 ++ reply ∷ [] })
sends_reply-InPhase (at_round i) reply s l = absurd l
sends_reply-InPhase (filled i msg) reply s l = absurd l
sends_reply-InPhase (sent i msg) reply s (lt, ((r1, r2), h)) =
    (lt, inr (reply, (r1, rw r2 refl), h))
sends_reply-InPhase (noted i msg) reply s (lt, ((r1, r2), h)) =
    (lt, inr (reply, (r1, rw r2 refl), h))
sends_reply-InPhase (replied i msg r) reply s l = absurd l
sends_reply-InPhase (told i r) reply s l = absurd l
sends_reply-InPhase (stopping stop) reply s l = absurd l
sends_reply-InPhase stopped reply s l = absurd l

pub tells_reply-InPhase :
    (P : Primary) (reply : ℕ) (s : System) (t : List (Option ℤ))
    → Phase P (answered reply) s
    → Phase P listening (record s { secondary = listening; secondary_told = t })
tells_reply-InPhase (at_round i) reply s t h = h
tells_reply-InPhase (filled i msg) reply s t h = h
tells_reply-InPhase (sent i msg) reply s t h = h
tells_reply-InPhase (noted i msg) reply s t h = h
tells_reply-InPhase (replied i msg r) reply s t h = h
tells_reply-InPhase (told i r) reply s t h = h
tells_reply-InPhase (stopping stop) reply s t h = h
tells_reply-InPhase stopped reply s t h = h
