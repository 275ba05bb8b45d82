-- ===== src/Rings/Duplex/Replies.antt =====
-- Each step keeps the phases, and what follows for the replies and the blocks.
use mathlib.Core.Path.{subst}
use dpdk_folder.Prelude.{◌*◌, ◌≡◌, refl, arith, pos, []}
use dpdk_folder.Dpdk.Malloc.{free-first}
use dpdk_folder.Rings.Duplex.{
  Primary, at_round, filled, sent, noted, replied, told, stopping, Secondary, listening, received,
  computed, answering, answered, System, Step, fills, sends, notes, gets_reply, tells, frees_reply,
  fills_stop, sends_stop, loses_stop, gets_message, finishes, computes, fills_reply, sends_reply,
  tells_reply, Reachable, stays, then_steps, launched,
}
use dpdk_folder.Rings.Duplex.Turns.{
  sends-InPhase, notes-InPhase, gets_reply-InPhase, sends_stop-InPhase, loses_stop-impossible,
  gets_message-InPhase, finishes-InPhase, computes-InPhase, fills_reply-InPhase,
  sends_reply-InPhase, tells_reply-InPhase,
}
use dpdk_folder.Rings.Duplex.Phases.{WhileListening-map, Phase, InPhase}

primary_at : (s : System) (P : Primary) → s.primary ≡ P → InPhase s → Phase P s.secondary s
primary_at s P e h = subst (λ P. Phase P s.secondary s) e h

secondary_at : (s : System) (S : Secondary) → s.secondary ≡ S → InPhase s → Phase s.primary S s
secondary_at s S e h = subst (λ S. Phase s.primary S s) e h

Step-InPhase : {s s' : System} → Step s s' → InPhase s → InPhase s'
Step-InPhase {s} (fills i msg e lt unused) h =
    WhileListening-map s.secondary (λ (le, r, heap). (lt, r, rw heap refl))
      (primary_at s (at_round i) e h)
Step-InPhase {s} (sends i msg e room) h =
    sends-InPhase s.secondary i msg s (primary_at s (filled i msg) e h)
Step-InPhase {s} (notes i msg e) h =
    notes-InPhase s.secondary i msg s _ (primary_at s (sent i msg) e h)
Step-InPhase {s} (gets_reply i msg reply rest e r) h =
    gets_reply-InPhase s.secondary i msg reply rest s r (primary_at s (noted i msg) e h)
Step-InPhase {s} (tells i msg reply e) h =
    WhileListening-map s.secondary (λ x. x) (primary_at s (replied i msg reply) e h)
Step-InPhase {s} (frees_reply i reply e) h =
    WhileListening-map s.secondary
      (λ (lt, r, heap). (omega arith, r, rw heap (free-first reply (pos (i * 10)) [])))
      (primary_at s (told i reply) e h)
Step-InPhase {s} (fills_stop stop e unused) h =
    WhileListening-map s.secondary (λ (le, r, heap). (r, rw heap refl))
      (primary_at s (at_round 10) e h)
Step-InPhase {s} (sends_stop stop e room) h =
    sends_stop-InPhase s.secondary stop s (primary_at s (stopping stop) e h)
Step-InPhase {s} (loses_stop stop e full) h =
    absurd (loses_stop-impossible s.secondary stop s full (primary_at s (stopping stop) e h))
Step-InPhase {s} (gets_message val rest e r) h =
    gets_message-InPhase s.primary val rest s r (secondary_at s listening e h)
Step-InPhase {s} (finishes val e v) h =
    finishes-InPhase s.primary val s v (secondary_at s (received val) e h)
Step-InPhase {s} (computes val v e holds ne) h =
    computes-InPhase s.primary val v s holds ne (secondary_at s (received val) e h)
Step-InPhase {s} (fills_reply res reply e unused) h =
    fills_reply-InPhase s.primary res reply s (secondary_at s (computed res) e h)
Step-InPhase {s} (sends_reply reply e room) h =
    sends_reply-InPhase s.primary reply s (secondary_at s (answering reply) e h)
Step-InPhase {s} (tells_reply reply e) h =
    tells_reply-InPhase s.primary reply s _ (secondary_at s (answered reply) e h)

Reachable-InPhase : {s s' : System} → Reachable s s' → InPhase s → InPhase s'
Reachable-InPhase stays h = h
Reachable-InPhase (then_steps r step) h = Step-InPhase step (Reachable-InPhase r h)

-- In every state that the two processes of full_duplex_2_rings reach, in any interleaving, they are in a
-- phase of their exchange: at most one pointer is in the rings, the message `i` or its reply, the reply
-- holds ten times `i`, the only block in use is the one that is being passed, and once both have ended no
-- block is left.
pub duplex-InPhase : (s : System) → Reachable launched s → InPhase s
duplex-InPhase s r = Reachable-InPhase r (omega arith, (refl, refl), refl)
