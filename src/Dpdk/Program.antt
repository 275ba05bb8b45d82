-- ===== src/Dpdk/Program.antt =====
-- The monad of the programs: they ask the driver, and may leave the process by `rte_exit`.
use dpdk_folder.Dpdk.Calls.{Mbuf, Request, int_of, word_of, burst_of, did, Trace, Driver}
use dpdk_folder.Prelude.{ℕ, ℤ, Bool, true, false, List, ◌∷◌, length}

-- How a piece of code ends: with a value; by `return`, which ends the function around it; by
-- `rte_exit` or `rte_panic`; or not within the rounds that a loop was given.
pub data Outcome (A : Type 0) : Type 0 where
  done : A → Outcome A
  returned : ℤ → Outcome A
  exited : Outcome A
  running : Outcome A

abbrev pub M : Type 0 → Type 0
M A = Driver → Trace → Outcome A × Trace

abbrev pub resume : {A B : Type 0} → Outcome A × Trace → (A → M B) → Driver → Outcome B × Trace
resume (done a, h) f d = f a d h
resume (returned r, h) f d = (returned r, h)
resume (exited, h) f d = (exited, h)
resume (running, h) f d = (running, h)

infixl 5 ◌>>=◌ ◌>>◌
unfoldable pub ◌>>=◌ : {A B : Type 0} → M A → (A → M B) → M B
◌>>=◌ m f d h = resume (m d h) f d

unfoldable pub ◌>>◌ : {A B : Type 0} → M A → M B → M B
◌>>◌ m k d h = resume (m d h) (λ _. k) d

unfoldable pub pure : {A : Type 0} → A → M A
pure a d h = (done a, h)

-- `return r;` in the middle of a function
unfoldable pub return : {A : Type 0} → ℤ → M A
return r d h = (returned r, h)

-- `if (b) return r;`
unfoldable pub return_if : Bool → ℤ → M (Unit {0})
return_if true r d h = (returned r, h)
return_if false r d h = (done tt, h)

abbrev pub caught : Outcome ℤ → Outcome ℤ
caught (returned r) = done r
caught (done r) = done r
caught exited = exited
caught running = running

-- The body of an `int` function, whose last value is its result.
unfoldable pub function : M ℤ → M ℤ
function body d h = let (o, h') = body d h in (caught o, h')

-- `if (b) rte_exit(EXIT_FAILURE, …);`
unfoldable pub exit_if : Bool → M (Unit {0})
exit_if true d h = (exited, h)
exit_if false d h = (done tt, h)

-- `rte_exit(EXIT_FAILURE, …)`, `rte_panic(…)`
unfoldable pub rte_exit : {A : Type 0} → M A
rte_exit d h = (exited, h)

-- A loop that has used up its rounds.
unfoldable pub still_running : {A : Type 0} → M A
still_running d h = (running, h)

unfoldable pub ask_int : Request → M ℤ
ask_int r d h = let x = d.int (length h) r in (done x, int_of r x ∷ h)

unfoldable pub ask_word : Request → M ℕ
ask_word r d h = let x = d.word (length h) r in (done x, word_of r x ∷ h)

unfoldable pub ask_burst : Request → M (List Mbuf)
ask_burst r d h = let x = d.burst (length h) r in (done x, burst_of r x ∷ h)

-- A call that returns nothing.
unfoldable pub run : Request → M (Unit {0})
run r d h = (done tt, did r ∷ h)

abbrev pub value_of : {A : Type 0} → Outcome A × Trace → Outcome A
value_of r = r.0

abbrev pub trace_of : {A : Type 0} → Outcome A × Trace → Trace
trace_of r = r.1

-- Opens every operation of the monad, to run a program.
unfoldable pub machine : Unit {0}
unfolding ◌>>=◌ ◌>>◌ pure return return_if function exit_if rte_exit still_running ask_int ask_word
    ask_burst run
machine = tt
