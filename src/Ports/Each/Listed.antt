-- ===== src/Ports/Each/Listed.antt =====
-- A pass over the ports reaches every port that ethdev lists, and no other.
use dpdk_folder.Prelude.{
  ℕ, ℤ, zero, suc, ◌+◌, ◌-◌, ◌≤◌, ◌<◌, pos, ltb, ltb→lt, ltb→le, Bool, true, false, ◌==◌, ◌≡◌, ◌≢◌,
  inl, inr, ap, ◌∙◌, sym, refl, arith, Bool-cases, ==_iff, eq_of_not-is_zero,
}
use dpdk_folder.Dpdk.{M, Driver, Outcome, done, returned, exited, running, find_next_port}
use dpdk_folder.Dpdk.Lifecycle.{ethdev, PortState, fresh_port}
use dpdk_folder.Dpdk.Rules
use dpdk_folder.Dpdk.Rules.{Triple}
use dpdk_folder.Ports.Contract.{BringsUp, IsReady}
use dpdk_folder.Ports.Each.{init_or_exit, max_ethports}
use dpdk_folder.Ports.Each.Rounds.{Leaves}

-- `r` is the next port from `i` on, or at least RTE_MAX_ETHPORTS when none is left.
pub record IsNext (listed : ℕ → Bool) (i r : ℕ) : Type 0 where
  pub forward : i ≤ r
  pub found : r < max_ethports → listed r ≡ true
  pub skips : (p : ℕ) → i ≤ p → p < r → p < max_ethports → listed p ≡ false

-- The documentation of rte_eth_find_next_owned_by, for a set of ports that does not change.
abbrev pub Lists : Driver → (ℕ → Bool) → Type 0
Lists d listed = (n i : ℕ) → i ≤ max_ethports → IsNext listed i (d.word n (find_next_port i))

-- A port that is listed is ready, and any other is untouched.
abbrev pub IsUpIfListed : Bool → PortState → Type 0
IsUpIfListed true s = IsReady s
IsUpIfListed false s = s ≡ fresh_port

-- So it is when the loop ends, or the loop has exited.
abbrev pub AllUpOrExits : {A : Type 0} → Bool → Outcome A → PortState → Type 0
AllUpOrExits listed (done _) s = IsUpIfListed listed s
AllUpOrExits listed (returned x) s = ⊥
AllUpOrExits listed exited s = Unit {0}
AllUpOrExits listed running s = ⊥

-- Port q when the loop is at `port_id`.
pub record Progress (q : ℕ) (listed : ℕ → Bool) (port_id : ℕ) (s : PortState) : Type 0 where
  pub ahead : port_id ≤ q → s ≡ fresh_port
  pub behind : q < port_id → IsUpIfListed (listed q) s

pub first-Progress :
    (listed : ℕ → Bool) (q first : ℕ)
    → q < max_ethports
    → IsNext listed 0 first
    → Progress q listed first fresh_port
first-Progress listed q first small is_next = record {
  ahead = λ _. refl;
  behind = λ lt. rw (is_next.skips q (omega arith) lt small) refl;
}

-- An initialiser that brings its port up, and leaves the others alone.
module _ (port_init : ℕ → ℕ → M ℤ) (d : Driver) (m q : ℕ)
    (brings : Triple d (ethdev q) fresh_port (port_init q m) BringsUp)
    (other : (p : ℕ) (s : PortState)
      → (p == q) ≡ false
      → Triple d (ethdev q) s (port_init p m) (Leaves s)) where
  -- After the call for `port_id`.
  abbrev AfterCall : PortState → ℕ → Outcome ℤ → PortState → Type 0
  AfterCall s port_id (done x) s' = x ≡ pos 0 → (port_id ≡ q → IsReady s') × (port_id ≢ q → s' ≡ s)
  AfterCall s port_id _ s' = ⊥

  own-AfterCall :
      (s : PortState) (o : Outcome ℤ) (s' : PortState) → BringsUp o s' → AfterCall s q o s'
  own-AfterCall s (done x) s' b = λ z. (λ e. b.ready (ap done z), λ ne. absurd (ne refl))
  own-AfterCall s (returned x) s' b = cc b.ends
  own-AfterCall s exited s' b = cc b.ends
  own-AfterCall s running s' b = cc b.ends

  other-AfterCall :
      (s : PortState) (port_id : ℕ) (o : Outcome ℤ) (s' : PortState)
      → port_id ≢ q
      → Leaves s o s'
      → AfterCall s port_id o s'
  other-AfterCall s port_id (done x) s' ne k = λ z. (λ e. absurd (ne e), λ _. k)
  other-AfterCall s port_id (returned x) s' ne k = k
  other-AfterCall s port_id exited s' ne k = k
  other-AfterCall s port_id running s' ne k = k

  call-Triple :
      (port_id : ℕ) (s : PortState)
      → (port_id ≤ q → s ≡ fresh_port)
      → Triple d (ethdev q) s (port_init port_id m) (AfterCall s port_id)
  call-Triple port_id s untouched = elim (Bool-cases (port_id == q)) [
    | inl e ↦
        let eq : port_id ≡ q = (==_iff port_id q).0 e in
        rw (eq, untouched (omega arith)) (Rules.weaken-Triple brings (own-AfterCall fresh_port))
    | inr e ↦
        Rules.weaken-Triple (other port_id s e)
          (λ o s'. other-AfterCall s port_id o s' λ eq. ground (arith, eq))
  ]

  next-Progress :
      (listed : ℕ → Bool) (port_id next : ℕ) (s s' : PortState)
      → q < max_ethports
      → listed port_id ≡ true
      → IsNext listed (port_id + 1) next
      → Progress q listed port_id s
      → (port_id ≡ q → IsReady s')
      → (port_id ≢ q → s' ≡ s)
      → Progress q listed next s'
  next-Progress listed port_id next s s' small here is_next at own rest =
      let forward : port_id + 1 ≤ next = is_next.forward in
      record {
        ahead = λ le. rest (omega arith) ∙ at.ahead (omega arith);
        behind = λ lt. elim (Bool-cases (port_id == q)) [
          | inl e ↦
              let eq : port_id ≡ q = (==_iff port_id q).0 e in
              rw (sym (ap listed eq) ∙ here) (own eq)
          | inr e ↦
              let ne : port_id ≢ q = λ eq. ground (arith, eq) in
              elim (Bool-cases (ltb q port_id)) [
                | inl l ↦ rw (rest ne) (at.behind (ltb→lt q port_id l))
                | inr l ↦
                    let le : port_id ≤ q = ltb→le q port_id l in
                    rw (is_next.skips q (omega (arith, ne)) lt small) (rest ne ∙ at.ahead le)
              ]
        ];
      }

  -- With rte_eth_find_next_owned_by as documented, the loop brings up every port that is listed from its
  -- start on, or exits; it does not run out of rounds.
  pub init_or_exit-Triple :
      (listed : ℕ → Bool) (rounds port_id : ℕ) (s : PortState)
      → Lists d listed
      → q < max_ethports
      → max_ethports - port_id < rounds
      → (port_id < max_ethports → listed port_id ≡ true)
      → Progress q listed port_id s
      → Triple d (ethdev q) s (init_or_exit port_init rounds m port_id) (AllUpOrExits (listed q))
  unfolding init_or_exit
  init_or_exit-Triple listed zero port_id s lists small enough here at = elim enough [ ]
  init_or_exit-Triple listed (suc rounds) port_id s lists small enough here at =
      elim (Bool-cases (ltb port_id max_ethports)) [
        | inl e ↦ rw e (
            let below : port_id < max_ethports = ltb→lt port_id max_ethports e in
            Rules.bind-Triple _ _ (call-Triple port_id s at.ahead) (λ x s' l. absurd l)
              (λ s' l. absurd l) (λ s' l. absurd l)
              λ ret s' after.
                Rules.exit_if-Triple _ _ (λ _. tt)
                  λ z.
                    let (own, rest) = after (eq_of_not-is_zero ret z) in
                    Rules.ask_word-Triple _ _ refl λ n.
                      let is_next = lists n (port_id + 1) (omega arith) in
                      let forward : port_id + 1 ≤ d.word n (find_next_port (port_id + 1)) =
                        is_next.forward in
                      init_or_exit-Triple listed rounds (d.word n (find_next_port (port_id + 1))) s'
                        lists small (omega arith) is_next.found
                        (next-Progress listed port_id _ s s' small (here below) is_next at own
                          rest))
        | inr e ↦
            rw e (Rules.pure-Triple _ (at.behind (omega (arith, ltb→le port_id max_ethports e))))
      ]
