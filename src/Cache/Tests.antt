-- ===== src/Cache/Tests.antt =====
-- Runs of the in-memory cache of internal/cache/cache.go on concrete calls.
use ai_website_builder.Common.{ℕ, ◌+◌, ◌≡◌, refl, true, false, none, some, List, [], ◌∷◌, arith}
use ai_website_builder.Common.Dict.{lookup, insert, remove}
use ai_website_builder.Common.Strconv.{pos, parse_int, scan, format_int}
use Prim.Native.Nat.{min}
use ai_website_builder.Cache.{new_memory, set, set_nx, get, incr, sweep}
use ai_website_builder.Cache.Spec.{
  Call, gets, sets, sets_nx, incrs, sweeps, found, acquired, counted, done, run, spec_run,
  run-spec_run,
}
use ai_website_builder.Cache.Locks.{after, elapsed, set_nx-excludes}
use ai_website_builder.Cache.RateLimit.{passed, passed-min}

abbrev some_calls : List (ℕ × Call)
some_calls =
    (0, sets "a" "7" 5)
    ∷ (2, incrs "a" 9)
    ∷ (1, sets_nx "a" "x" 4)
    ∷ (3, gets "a")
    ∷ (0, sweeps)
    ∷ (0, sets_nx "a" "y" 4)
    ∷ (0, gets "a")
    ∷ []

-- The counter keeps the expiry of its first write, and the lock is free once that is over.
some_calls-replies :
    run 10 new_memory some_calls
    ≡ done
      ∷ counted (pos 8)
      ∷ acquired false
      ∷ found none
      ∷ done
      ∷ acquired true
      ∷ found (some "y")
      ∷ []
unfolding run get set set_nx incr sweep lookup insert remove parse_int scan format_int
some_calls-replies = refl

run-spec_run_example : run 10 new_memory some_calls ≡ spec_run 10 (λ k. none) some_calls
run-spec_run_example = run-spec_run 10 some_calls

abbrev other_calls : List (ℕ × Call)
other_calls = (4, sets "lock:2" "7" 5) ∷ (2, sweeps) ∷ (3, gets "lock:1") ∷ []

set_nx-excludes_example :
    (set_nx
      (100 + elapsed other_calls)
      "lock:1"
      "b"
      600
      (after 100 (set_nx 100 "lock:1" "a" 600 new_memory).1 other_calls)).0
    ≡ false
unfolding set_nx lookup
set_nx-excludes_example =
    set_nx-excludes 100 600 "lock:1" "a" "b" other_calls 600 new_memory refl (refl, (tt, (tt, tt)))
      (omega arith)

passed-min_example : passed 100 "login:::1" 2 60 new_memory (0 ∷ 20 ∷ 0 ∷ 30 ∷ []) ≡ min 2 4
passed-min_example =
    passed-min 100 "login:::1" 2 60 new_memory (20 ∷ 0 ∷ 30 ∷ []) (unfold lookup in refl)
      (omega arith) (omega arith)
