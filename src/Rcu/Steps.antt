-- ===== src/Rcu/Steps.antt =====
-- The reader and the writer as a step relation; a step is one call or one access to shared memory, and
-- the steps of the two interleave freely. `rte_rcu_qsbr` is a parameter: when `synchronize` may return. The
-- pauses and the results of rte_malloc, which are not checked, are left out: an allocation succeeds, with
-- any block that is not in use. The block of the QSBR variable itself is not modelled.
use dpdk_folder.Dpdk.Malloc.{value_at, free}
use dpdk_folder.Prelude.{ℕ, ◌+◌, ◌<◌, ◌≡◌, Bool, true, false, List, [], ◌∷◌, Option, none}

-- How far `reader` is: before thread_register, before thread_online, at the test of `stop`, behind the
-- lock, with `d` loaded, behind the print, behind the unlock, before thread_unregister, returned.
pub data Reader : Type 0 where
  launched : Reader
  registered : Reader
  looping : Reader
  locked : Reader
  holding : (d : ℕ) → Reader
  done_reading : Reader
  unlocked : Reader
  offline : Reader
  returned : Reader

-- How far main and `writer` are, in round `i`: at the loop's test, with `new` allocated, with `old` swapped
-- out, in synchronize, behind it; then with `stop` set, behind mp_wait_lcore, and with `gdata` freed.
pub data Writer : Type 0 where
  at_round : (i : ℕ) → Writer
  allocated : (i new : ℕ) → Writer
  swapped : (i old : ℕ) → Writer
  synchronizing : (i old : ℕ) → Writer
  synchronized : (i old : ℕ) → Writer
  stopped : Writer
  joined : Writer
  cleaned : Writer

pub record System : Type 0 where
  -- the blocks in use, each with its `value`
  pub heap : List (ℕ × ℕ)
  pub gdata : ℕ
  pub stop : Bool
  -- the reader has been quiescent or offline since `synchronize` was called
  pub quiet : Bool
  pub reader : Reader
  pub writer : Writer
  -- what the reader has printed, the newest first; `none` is what it reads in a block that was freed
  pub printed : List (Option ℕ)

-- A reader that is not online holds up nobody.
abbrev pub is_offline : Reader → Bool
is_offline launched = true
is_offline registered = true
is_offline offline = true
is_offline returned = true
is_offline _ = false

-- The bound of the writer's loop
abbrev pub rounds : ℕ
rounds = 5

module _ (MayReturn : System → Type 0) where
  pub data Step : System → System → Type 0 where
    registers : {s : System} → s.reader ≡ launched → Step s (record s { reader = registered })
    goes_online : {s : System} → s.reader ≡ registered → Step s (record s { reader = looping })
    locks :
        {s : System} → s.reader ≡ looping → s.stop ≡ false → Step s (record s { reader = locked })
    loads : {s : System} → s.reader ≡ locked → Step s (record s { reader = holding s.gdata })
    prints :
        {s : System} (d : ℕ)
        → s.reader ≡ holding d
        → Step s (record s { reader = done_reading; printed = value_at d s.heap ∷ s.printed })
    unlocks : {s : System} → s.reader ≡ done_reading → Step s (record s { reader = unlocked })
    reports_quiescent :
        {s : System} → s.reader ≡ unlocked → Step s (record s { reader = looping; quiet = true })
    goes_offline :
        {s : System}
        → s.reader ≡ looping
        → s.stop ≡ true
        → Step s (record s { reader = offline; quiet = true })
    unregisters : {s : System} → s.reader ≡ offline → Step s (record s { reader = returned })
    allocates :
        {s : System} (i new : ℕ)
        → s.writer ≡ at_round i
        → i < rounds
        → value_at new s.heap ≡ none
        → Step s (record s { writer = allocated i new; heap = (new, i + 1) ∷ s.heap })
    swaps :
        {s : System} (i new : ℕ)
        → s.writer ≡ allocated i new
        → Step s (record s { writer = swapped i s.gdata; gdata = new })
    starts_synchronize :
        {s : System} (i old : ℕ)
        → s.writer ≡ swapped i old
        → Step s (record s { writer = synchronizing i old; quiet = is_offline s.reader })
    returns_from_synchronize :
        {s : System} (i old : ℕ)
        → s.writer ≡ synchronizing i old
        → MayReturn s
        → Step s (record s { writer = synchronized i old })
    frees_old :
        {s : System} (i old : ℕ)
        → s.writer ≡ synchronized i old
        → Step s (record s { writer = at_round (i + 1); heap = free old s.heap })
    stops :
        {s : System}
        → s.writer ≡ at_round rounds
        → Step s (record s { writer = stopped; stop = true })
    joins :
        {s : System}
        → s.writer ≡ stopped
        → s.reader ≡ returned
        → Step s (record s { writer = joined })
    cleans_up :
        {s : System}
        → s.writer ≡ joined
        → Step s (record s { writer = cleaned; heap = free s.gdata s.heap })

  pub data Reachable : System → System → Type 0 where
    stays : {s : System} → Reachable s s
    then_steps : {s t u : System} → Reachable s t → Step t u → Reachable s u

-- main has allocated the first block, with value 0, and launched the reader.
abbrev pub started : (block : ℕ) → System
started block = record {
  heap = (block, 0) ∷ [];
  gdata = block;
  stop = false;
  quiet = false;
  reader = launched;
  writer = at_round 0;
  printed = [];
}
