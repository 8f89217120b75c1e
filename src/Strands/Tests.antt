-- ===== src/Strands/Tests.antt =====
-- The theorems on the registry, at a registry with one strand.
use patch_seq.Base.{ℕ, suc, ◌<◌, ◌≡◌, ◌↔◌, refl, some, arith}
use patch_seq.Machine.{update}
use patch_seq.Strands.{
  storing, claiming, registered, releasing, clearing, Registry, new, goes, start, store, claim,
  finish, Reachable, at_start, and_step,
}
use patch_seq.Strands.Held.{Holds}
use patch_seq.Strands.Runs.{Reachable-slots}
use patch_seq.Strands.Finds.{Alone, unregister_finds}

abbrev started : Registry
started = goes new 3 (storing 70 0)

abbrev stored : Registry
stored = record (goes started 3 (claiming 70 0)) { spawn_time = update started.spawn_time 0 70 }

abbrev claimed : Registry
claimed = record (goes stored 3 (registered 0)) { strand_id = update stored.strand_id 0 4 }

abbrev finishing : Registry
finishing = goes claimed 3 (releasing (some 0) 0)

-- Thread 3 registers its strand in slot 0 and begins to unregister it.
finishing-Reachable : Reachable 8 finishing
unfolding new
finishing-Reachable =
    and_step
      (and_step (and_step (and_step at_start (start 3 70 refl)) (store 3 70 0 refl (omega arith)))
        (claim 3 70 0 refl (omega arith) refl))
      (finish 3 0 refl)

Reachable-slots_example :
    ((t p : ℕ) → (finishing.strand_id p ≡ suc t) ↔ Holds (finishing.threads t) p)
    × ((t p q : ℕ) → finishing.strand_id p ≡ suc t → finishing.strand_id q ≡ suc t → p ≡ q)
    × ((t p : ℕ) → finishing.strand_id p ≡ suc t → p < 8)
Reachable-slots_example = Reachable-slots 8 finishing finishing-Reachable

unregister_finds_example :
    (r' : Registry) × Alone 8 3 finishing r' × (r'.threads 3 ≡ clearing 0) × (r'.strand_id 0 ≡ 0)
unregister_finds_example = unregister_finds 8 finishing 3 0 0 finishing-Reachable refl
