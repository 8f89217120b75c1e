-- ===== src/ResourceLint/Tests.antt =====
-- The theorems on the resource lint, at concrete branches.
use patch_seq.Base.{◌≡◌, refl, false, ◌&&◌, ◌||◌, not, [], ◌∷◌}
use patch_seq.ResourceLint.{
  TrackedResource, channel, weave_handle, resource, StackState, new, contains_id, join, merge,
}
use patch_seq.ResourceLint.Joins.{is_tracked, reports, join_lem, merge_lem}

abbrev made : TrackedResource
made = record { kind = channel; id = 0; created_line = 3; created_by = "chan.make" }

abbrev woven : TrackedResource
woven = record { kind = weave_handle; id = 1; created_line = 4; created_by = "strand.weave" }

-- One branch keeps the channel, the other closes it and leaves a weave.
abbrev keeping : StackState
keeping = record new { stack = resource made ∷ []; next_id = 1 }

abbrev closing : StackState
closing = record new { stack = resource woven ∷ []; consumed = made ∷ []; next_id = 2 }

join_lem_example :
    (contains_id (join (λ rs. rs) keeping closing).consumed 1
      ≡ (contains_id keeping.consumed 1 && contains_id closing.consumed 1))
    × ((is_tracked keeping.stack 1 || is_tracked closing.stack 1) ≡ (
        is_tracked (join (λ rs. rs) keeping closing).stack 1
        || ((is_tracked keeping.stack 1 || is_tracked closing.stack 1)
            && contains_id (join (λ rs. rs) keeping closing).consumed 1)))
    × ((is_tracked keeping.stack 1 && not (is_tracked (join (λ rs. rs) keeping closing).stack 1))
        ≡ false)
join_lem_example = join_lem (λ rs. rs) (λ rs i. refl) keeping closing 1

merge_lem_example : reports (merge (λ rs. rs) keeping closing) 0 ≡ (
    (is_tracked keeping.stack 0
      && (contains_id closing.consumed 0 && not (contains_id keeping.consumed 0)))
    || (is_tracked closing.stack 0
        && (contains_id keeping.consumed 0 && not (contains_id closing.consumed 0))))
merge_lem_example = merge_lem (λ rs. rs) (λ rs i. refl) keeping closing 0
