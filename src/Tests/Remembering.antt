-- ===== src/Tests/Remembering.antt =====
-- The theorems on memory (proxy.c, mccp.c), applied.
use mudit_m.Base.{refl, true, arith, List, [], ◌∷◌}
use mudit_m.Run.{Returns, ◌>>=◌}
use mudit_m.Memory.{
  Heap, Use, starts_tls, adds_pattern, installs_patterns, begins_output, begins_input,
  new_endpoint_blocks, use_all, free_endpoint, live_endpoint,
}
use mudit_m.Memory.Held.{Holds}
use mudit_m.Memory.Lives.{
  changes_of_mind, Leaks, new_endpoint-Holds, live_endpoint-Returns, free_endpoint-Leaks,
}

-- Two blocks of others.
abbrev heap : Heap
heap = record { next = 2; live = 1 ∷ 0 ∷ [] }

heap-Holds : Holds heap (0 ∷ 1 ∷ [])
heap-Holds = record { held = λ a. omega arith }

abbrev session : List Use
session =
    starts_tls
    ∷ adds_pattern
    ∷ adds_pattern
    ∷ installs_patterns
    ∷ begins_output true
    ∷ begins_output true
    ∷ begins_input true
    ∷ []

live_endpoint-Returns_example : Returns (λ h'. Holds h' (0 ∷ 1 ∷ [])) (live_endpoint session heap)
live_endpoint-Returns_example = live_endpoint-Returns session heap (0 ∷ 1 ∷ []) heap-Holds refl

free_endpoint-Leaks_example : Returns (Leaks 2 (0 ∷ 1 ∷ [])) (
    use_all (changes_of_mind 2) (new_endpoint_blocks heap).0 (new_endpoint_blocks heap).1 >>= λ r.
    free_endpoint r.0 r.1)
free_endpoint-Leaks_example =
    free_endpoint-Leaks 2 (new_endpoint_blocks heap).0 (new_endpoint_blocks heap).1 (0 ∷ 1 ∷ [])
      (new_endpoint-Holds heap (0 ∷ 1 ∷ []) heap-Holds)
