-- ===== src/Dpdk/Rules/State.antt =====
-- What a triple says: a protocol in a state, and followed so far, before and after a program.
use dpdk_folder.Prelude.{
  [], refl, Bool-cases, inl, inr, List, ℕ, ℤ, is_neg, true, false, ◌∷◌, ◌≡◌, if◌then◌else◌, ◌==◌,
}
use dpdk_folder.Dpdk.Calls.{Mbuf, burst_of, did, Request, Event, int_of, word_of, Trace, Driver}
use dpdk_folder.Dpdk.Program.{Outcome, M}
use dpdk_folder.Dpdk.Protocol.{Protocol, state_after, Follows, request_of}

-- The protocol is in state `s`, and has been followed.
pub record At (P : Protocol) (s : P.State) (h : Trace) : Type 0 where
  pub state : state_after P h ≡ s
  pub ordered : Follows P h

-- A call that it is concerned with.
pub At-int :
    {P : Protocol} {s : P.State} {h : Trace} (r : Request) (x : ℤ)
    → P.concerns r ≡ true
    → P.Allowed r s
    → At P s h
    → At P (if is_neg x then s else P.succeed r s) (int_of r x ∷ h)
At-int {P} {s} {h} r x mine may a = record {
  state = rw (mine, a.state);
  ordered = (λ _. rw a.state may, a.ordered);
}

-- A burst, which leaves the state as it is.
pub At-burst :
    {P : Protocol} {s : P.State} {h : Trace} (r : Request) (x : List Mbuf)
    → P.Allowed r s
    → At P s h
    → At P s (burst_of r x ∷ h)
At-burst {P} {s} {h} r x may a = record {
  state = elim (Bool-cases (P.concerns r)) [ inl e ↦ rw (e, a.state) | inr e ↦ rw (e, a.state) ];
  ordered = (λ mine. rw a.state may, a.ordered);
}

pub At-word :
    {P : Protocol} {s : P.State} {h : Trace} (r : Request) (x : ℕ)
    → P.concerns r ≡ true
    → P.Allowed r s
    → At P s h
    → At P (if x == 0 then s else P.succeed r s) (word_of r x ∷ h)
At-word {P} {s} {h} r x mine may a = record {
  state = rw (mine, a.state);
  ordered = (λ _. rw a.state may, a.ordered);
}

pub At-did :
    {P : Protocol} {s : P.State} {h : Trace} (r : Request)
    → P.concerns r ≡ true
    → P.Allowed r s
    → At P s h
    → At P (P.succeed r s) (did r ∷ h)
At-did {P} {s} {h} r mine may a = record {
  state = rw (mine, a.state);
  ordered = (λ _. rw a.state may, a.ordered);
}

-- A call about something else.
pub At-other :
    {P : Protocol} {s : P.State} {h : Trace} (e : Event)
    → P.concerns (request_of e) ≡ false
    → At P s h
    → At P s (e ∷ h)
At-other {P} {s} {h} e other a = record {
  state = rw (other, a.state);
  ordered = (λ mine. cc, a.ordered);
}

pub record Ends {A : Type 0} (P : Protocol) (Post : Outcome A → P.State → Type 0)
    (r : Outcome A × Trace) : Type 0 where
  pub after : P.State
  pub at : At P after r.1
  pub post : Post r.0 after

pub record Triple {A : Type 0} (d : Driver) (P : Protocol) (s : P.State) (m : M A)
    (Post : Outcome A → P.State → Type 0) : Type 0 where
  pub run : (h : Trace) → At P s h → Ends P Post (m d h)

-- A program is run on the empty trace, with the protocol in its first state.
pub Triple-Ends :
    {A : Type 0} {d : Driver} {P : Protocol} {m : M A} {Post : Outcome A → P.State → Type 0}
    → Triple d P P.fresh m Post
    → Ends P Post (m d [])
Triple-Ends t = t.run [] (record { state = refl; ordered = tt })
