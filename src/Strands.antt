-- ===== src/Strands.antt =====
-- The registry of running strands (crates/runtime/src/scheduler/registry.rs). Threads register and
-- unregister strands at the same time; each atomic access to a slot is one step. The memory is
-- sequentially consistent here. Thread `t` runs the strand with the id `t + 1`: ids are not used again.
pub mod Held
pub mod Runs
pub mod Finds
mod Tests
use patch_seq.Machine.{update}
use patch_seq.Base.{
  ℕ, suc, ◌+◌, ◌<◌, Bool, true, false, ◌≤◌, ◌≡◌, ◌≢◌, Option, none, some, List, [], ◌∷◌, ltb,
  if◌then◌else◌, ◌==◌,
}

-- Where a thread is: before `register`, in its loop before the store of the spawn time or before the
-- exchange of slot `p`, after it with a slot or without one, in the loop of `unregister` before the
-- exchange of slot `p`, after a successful exchange before the store of the time, and at the end.
pub data Thread : Type 0 where
  ready untracked : Thread
  storing claiming : (spawn_time p : ℕ) → Thread
  registered : (p : ℕ) → Thread
  releasing : (slot : Option ℕ) → (p : ℕ) → Thread
  clearing : (p : ℕ) → Thread
  unregistered : (found : Bool) → Thread

pub record Registry : Type 0 where
  pub strand_id : ℕ → ℕ
  pub spawn_time : ℕ → ℕ
  pub overflow_count : ℕ
  pub threads : ℕ → Thread

unfoldable pub new : Registry
new = record { strand_id = λ p. 0; spawn_time = λ p. 0; overflow_count = 0; threads = λ t. ready }

abbrev pub goes : Registry → ℕ → Thread → Registry
goes r t thread = record r { threads = update r.threads t thread }

-- The steps of `register` and `unregister` on a registry of some capacity.
pub data Step (capacity : ℕ) : Registry → Registry → Type 0 where
  start :
      {r : Registry} (t time : ℕ)
      → r.threads t ≡ ready
      → Step capacity r (goes r t (storing time 0))
  store :
      {r : Registry} (t time p : ℕ)
      → r.threads t ≡ storing time p
      → p < capacity
      → Step capacity r
          (record (goes r t (claiming time p)) { spawn_time = update r.spawn_time p time })
  claim :
      {r : Registry} (t time p : ℕ)
      → r.threads t ≡ claiming time p
      → p < capacity
      → r.strand_id p ≡ 0
      → Step capacity r
          (record (goes r t (registered p)) { strand_id = update r.strand_id p (suc t) })
  pass :
      {r : Registry} (t time p : ℕ)
      → r.threads t ≡ claiming time p
      → r.strand_id p ≢ 0
      → Step capacity r (goes r t (storing time (suc p)))
  overflow :
      {r : Registry} (t time p : ℕ)
      → r.threads t ≡ storing time p
      → capacity ≤ p
      → Step capacity r (record (goes r t untracked) { overflow_count = r.overflow_count + 1 })
  finish :
      {r : Registry} (t p : ℕ)
      → r.threads t ≡ registered p
      → Step capacity r (goes r t (releasing (some p) 0))
  finish_untracked :
      {r : Registry} (t : ℕ)
      → r.threads t ≡ untracked
      → Step capacity r (goes r t (releasing none 0))
  release :
      {r : Registry} (t : ℕ) (slot : Option ℕ) (p : ℕ)
      → r.threads t ≡ releasing slot p
      → p < capacity
      → r.strand_id p ≡ suc t
      → Step capacity r (record (goes r t (clearing p)) { strand_id = update r.strand_id p 0 })
  skip :
      {r : Registry} (t : ℕ) (slot : Option ℕ) (p : ℕ)
      → r.threads t ≡ releasing slot p
      → p < capacity
      → r.strand_id p ≢ suc t
      → Step capacity r (goes r t (releasing slot (suc p)))
  clear :
      {r : Registry} (t p : ℕ)
      → r.threads t ≡ clearing p
      → Step capacity r
          (record (goes r t (unregistered true)) { spawn_time = update r.spawn_time p 0 })
  missing :
      {r : Registry} (t : ℕ) (slot : Option ℕ) (p : ℕ)
      → r.threads t ≡ releasing slot p
      → capacity ≤ p
      → Step capacity r (goes r t (unregistered false))

-- What some steps of the threads, in any order, make of a new registry.
pub data Reachable (capacity : ℕ) : Registry → Type 0 where
  at_start : Reachable capacity new
  and_step : {r r' : Registry} → Reachable capacity r → Step capacity r r' → Reachable capacity r'
