-- ===== src/Cache/View.antt =====
-- What the callers of the in-memory cache can see: the entries that have not expired.
use ai_website_builder.Common.{
  ℕ, ◌≤◌, String, ◌≡◌, refl, false, Option, none, some, [], ◌∷◌, arith, eq_iff, if◌then◌else◌,
}
use ai_website_builder.Common.Dict.{Dict, lookup, IsDistinct, lookup-remove, remove-IsDistinct}
use ai_website_builder.Cache.{MemEntry, MemCache, expired, sweep_entries, get_entry, get_found}

abbrev pub live : ℕ → Option MemEntry → Option MemEntry
live now none = none
live now (some e) = if expired now e then none else some e

-- What has expired stays expired.
pub live-live : (t u : ℕ) (o : Option MemEntry) → t ≤ u → live u (live t o) ≡ live u o
live-live t u none h = refl
live-live t u (some e) h = ground arith

pub lookup-sweep_entries :
    (now : ℕ) (k : String) (m : Dict MemEntry)
    → IsDistinct m
    → lookup k (sweep_entries now m) ≡ live now (lookup k m)
unfolding lookup sweep_entries
lookup-sweep_entries now k [] h = refl
lookup-sweep_entries now k ((j, e) ∷ m) h =
    ground (arith, eq_iff j k, lookup-sweep_entries now k m h.1, h.0)

pub sweep-IsDistinct :
    (now : ℕ) (m : Dict MemEntry) → IsDistinct m → IsDistinct (sweep_entries now m)
unfolding sweep_entries
sweep-IsDistinct now [] h = tt
sweep-IsDistinct now ((j, e) ∷ m) h =
    ground (arith, lookup-sweep_entries now j m h.1, sweep-IsDistinct now m h.1)

-- `get` hands out the live entry.
pub get_entry-live :
    (now : ℕ) (key : String) (c : MemCache) → (get_entry now key c).0 ≡ live now (lookup key c.m)
unfolding get_entry
get_entry-live now key c = ground arith

-- ... and changes the view of no key.
pub view-get_entry :
    (now : ℕ) (key k : String) (c : MemCache)
    → live now (lookup k (get_entry now key c).1.m) ≡ live now (lookup k c.m)
unfolding get_entry
view-get_entry now key k c = ground (arith, lookup-remove key k c.m, eq_iff key k)

pub get_entry-IsDistinct :
    (now : ℕ) (key : String) (c : MemCache) → IsDistinct c.m → IsDistinct (get_entry now key c).1.m
unfolding get_entry
get_entry-IsDistinct now key c h = ground (arith, remove-IsDistinct key c.m h)

not_expired :
    (now until : ℕ) (e : MemEntry) → now ≤ until → until ≤ e.expires_at → expired now e ≡ false
not_expired now until e b u = ground arith

-- A key that is held is found live.
pub get_entry_held :
    (now until : ℕ) (k : String) (c : MemCache) (e : MemEntry)
    → now ≤ until
    → lookup k c.m ≡ some e
    → until ≤ e.expires_at
    → get_entry now k c ≡ (some e, c)
unfolding get_entry
get_entry_held now until k c e b h u = rw (h, get_found) (rw (not_expired now until e b u))
