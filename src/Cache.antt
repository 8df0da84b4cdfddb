-- ===== src/Cache.antt =====
-- internal/cache/cache.go: the in-memory cache. Each call runs under the mutex, so a call is one
-- step; `now` is the clock, which does not move within a call. Durations and times are numbers in one unit.
pub mod View
pub mod Spec
pub mod RateLimit
pub mod Locks
pub mod Kept
pub mod Tests
use ai_website_builder.Common.{
  ℕ, ◌+◌, String, Bool, true, false, Option, none, some, List, [], ◌∷◌, ltb, if◌then◌else◌,
}
use ai_website_builder.Common.Dict.{Dict, lookup, insert, remove}
use ai_website_builder.Common.Strconv.{ℤ, pos, increment, parse_int, format_int}

pub record MemEntry : Type 0 where
  pub value : String
  pub expires_at : ℕ

pub record MemCache : Type 0 where
  pub m : Dict MemEntry

abbrev pub new_memory : MemCache
new_memory = record { m = [] }

-- now.After(e.expiresAt)
abbrev pub expired : ℕ → MemEntry → Bool
expired now e = ltb e.expires_at now

-- One pass of the janitor's loop.
unfoldable pub sweep_entries : ℕ → Dict MemEntry → Dict MemEntry
sweep_entries now [] = []
sweep_entries now ((k, e) ∷ rest) =
    let kept = sweep_entries now rest in if expired now e then kept else (k, e) ∷ kept

unfoldable pub sweep : ℕ → MemCache → MemCache
unfolding sweep_entries
sweep now c = record { m = sweep_entries now c.m }

-- The private `get`: a missing or expired key is deleted.
get_found : ℕ → String → MemCache → Option MemEntry → Option MemEntry × MemCache
get_found now key c none = (none, record { m = remove key c.m })
get_found now key c (some e) =
    if expired now e then (none, record { m = remove key c.m }) else (some e, c)

unfoldable pub get_entry : ℕ → String → MemCache → Option MemEntry × MemCache
unfolding get_found
get_entry now key c = get_found now key c (lookup key c.m)

abbrev value_of : Option MemEntry → Option String
value_of none = none
value_of (some e) = some e.value

unfoldable pub get : ℕ → String → MemCache → Option String × MemCache
unfolding get_entry
get now key c = let (found, c') = get_entry now key c in (value_of found, c')

unfoldable pub set : ℕ → String → String → ℕ → MemCache → MemCache
set now key value ttl c = record {
  m = insert key (record { value = value; expires_at = now + ttl }) c.m;
}

unfoldable pub delete : String → MemCache → MemCache
delete key c = record { m = remove key c.m }

set_absent : ℕ → String → String → ℕ → Option MemEntry × MemCache → Bool × MemCache
unfolding set
set_absent now key value ttl (some e, c) = (false, c)
set_absent now key value ttl (none, c) = (true, set now key value ttl c)

unfoldable pub set_nx : ℕ → String → String → ℕ → MemCache → Bool × MemCache
unfolding get_entry set_absent
set_nx now key value ttl c = set_absent now key value ttl (get_entry now key c)

incr_found : ℕ → String → ℕ → Option MemEntry × MemCache → ℤ × MemCache
unfolding set
incr_found now key ttl (none, c) = (pos 1, set now key "1" ttl c)
incr_found now key ttl (some e, c) =
    let n = increment (parse_int e.value) in
    (n, record { m = insert key (record e { value = format_int n }) c.m })

unfoldable pub incr : ℕ → String → ℕ → MemCache → ℤ × MemCache
unfolding get_entry incr_found
incr now key ttl c = incr_found now key ttl (get_entry now key c)
