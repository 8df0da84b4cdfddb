-- ===== src/Cache/RateLimit.antt =====
-- The rate limiter of internal/httpapi/middleware.go over the cache's counters.
use ai_website_builder.Common.{
  ℕ, ◌+◌, ◌-◌, ◌≤◌, ◌<◌, String, ◌≡◌, refl, Bool, Option, none, some, List, [], ◌∷◌, arith,
  if◌then◌else◌, ◌<>◌, ap, ◌∙◌, leb, length,
}
use Prim.Native.Nat.{min}
use ai_website_builder.Common.Dict.{lookup, lookup-insert}
use ai_website_builder.Common.Strconv.{
  pos, max_int64, increment, at_most, format_int, parse_int-format_int,
}
use ai_website_builder.Cache.{MemEntry, MemCache, incr, incr_found}
use ai_website_builder.Cache.View.{live, get_entry-live, get_entry_held}
use text.Mathlib.TextPositions.{eq_refl}

-- `rateLimit`: whether the request is let through.
unfoldable pub rate_limit : ℕ → String → ℕ → ℕ → MemCache → Bool × MemCache
rate_limit now key max window c =
    let (n, c') = incr now ("rl:" <> key) window c in (at_most n max, c')

-- The number of requests let through, each some time after the one before.
unfoldable pub passed : ℕ → String → ℕ → ℕ → MemCache → List ℕ → ℕ
passed t key max window c [] = 0
passed t key max window c (d ∷ ds) =
    let (ok, c') = rate_limit (t + d) key max window c in
    (if ok then 1 else 0) + passed (t + d) key max window c' ds

abbrev pub sum : List ℕ → ℕ
sum [] = 0
sum (d ∷ ds) = d + sum ds

-- The counter of a key stands at n until its window ends.
abbrev CountsTo : String → ℕ → ℕ → MemCache → Type 0
CountsTo k n until c =
    lookup k c.m ≡ some (record { value = format_int (pos n); expires_at = until })

incr_found-first :
    (now : ℕ) (k : String) (window : ℕ) (g : Option MemEntry × MemCache)
    → g.0 ≡ none
    → ((incr_found now k window g).0 ≡ pos 1)
      × CountsTo k 1 (now + window) (incr_found now k window g).1
unfolding incr_found format_int
incr_found-first now k window (none, c) h = (refl, rw (lookup-insert k k _ c.m, eq_refl k) refl)
incr_found-first now k window (some e, c) h = cc

incr-first :
    (now : ℕ) (k : String) (window : ℕ) (c : MemCache)
    → live now (lookup k c.m) ≡ none
    → ((incr now k window c).0 ≡ pos 1) × CountsTo k 1 (now + window) (incr now k window c).1
unfolding incr
incr-first now k window c h = incr_found-first now k window _ (get_entry-live now k c ∙ h)

increment-pos : (n : ℕ) → n < max_int64 → increment (pos n) ≡ pos (n + 1)
increment-pos n b = ground arith

incr_found-next :
    (now : ℕ) (k : String) (window n until : ℕ) (c : MemCache)
    → n < max_int64
    → let e : MemEntry = record { value = format_int (pos n); expires_at = until } in
      let (m, c') = incr_found now k window (some e, c) in
      (m ≡ pos (n + 1)) × CountsTo k (n + 1) until c'
unfolding incr_found
incr_found-next now k window n until c b =
    rw (parse_int-format_int n (omega arith), increment-pos n b)
      (refl, rw (lookup-insert k k _ c.m, eq_refl k) refl)

incr-next :
    (now : ℕ) (k : String) (window n until : ℕ) (c : MemCache)
    → n < max_int64
    → now ≤ until
    → CountsTo k n until c
    → ((incr now k window c).0 ≡ pos (n + 1)) × CountsTo k (n + 1) until (incr now k window c).1
unfolding incr
incr-next now k window n until c b l h =
    rw (get_entry_held now until k c _ l h (omega arith)) (incr_found-next now k window n until c b)

-- The limiter's answer, from the counter's.
rate_limit-next :
    (now : ℕ) (key : String) (max window n until : ℕ) (c : MemCache)
    → n < max_int64
    → now ≤ until
    → CountsTo ("rl:" <> key) n until c
    → ((rate_limit now key max window c).0 ≡ leb (n + 1) max)
      × CountsTo ("rl:" <> key) (n + 1) until (rate_limit now key max window c).1
unfolding rate_limit
rate_limit-next now key max window n until c b l h =
    let step = incr-next now ("rl:" <> key) window n until c b l h in
    (ap (λ m. at_most m max) step.0, step.1)

passed-counted :
    (t : ℕ) (key : String) (max window n until : ℕ) (c : MemCache) (ds : List ℕ)
    → n + length ds < max_int64
    → t + sum ds ≤ until
    → CountsTo ("rl:" <> key) n until c
    → passed t key max window c ds ≡ min (max - n) (length ds)
unfolding passed
passed-counted t key max window n until c [] b l h = omega arith
passed-counted t key max window n until c (d ∷ ds) b l h =
    let step = rate_limit-next (t + d) key max window n until c (omega arith) (omega arith) h in
    let rest =
      passed-counted (t + d) key max window (n + 1) until _ ds (omega arith) (omega arith) step.1 in
    rw (step.0, rest) (ground arith)

-- In one window, which starts with a request when no counter of the key is live, exactly the
-- first `max` requests are let through, however they are spread over the window, as long as there
-- are fewer of them than the largest int64.
pub passed-min :
    (t : ℕ) (key : String) (max window : ℕ) (c : MemCache) (ds : List ℕ)
    → live t (lookup ("rl:" <> key) c.m) ≡ none
    → length ds + 1 < max_int64
    → sum ds ≤ window
    → passed t key max window c (0 ∷ ds) ≡ min max (length ds + 1)
unfolding passed rate_limit
passed-min t key max window c ds h b l =
    let now : t + 0 ≡ t = omega arith in
    let first = incr-first t ("rl:" <> key) window c h in
    let rest =
      passed-counted t key max window 1 (t + window) _ ds (omega arith) (omega arith) first.1 in
    rw (now, first.0, rest) (ground arith)
