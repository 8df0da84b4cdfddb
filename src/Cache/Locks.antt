-- ===== src/Cache/Locks.antt =====
-- SetNX as a lock: internal/publish/publisher.go takes it per website before a deployment.
use ai_website_builder.Common.{
  ℕ, ◌+◌, ◌≤◌, String, ◌≡◌, refl, true, false, Option, none, some, List, [], ◌∷◌, arith, eq_iff,
  ◌==◌, All, ap, Bool-cases, inl, inr,
}
use ai_website_builder.Common.Dict.{Dict, lookup, insert, lookup-insert, lookup-remove}
use ai_website_builder.Common.Strconv.{increment, parse_int, format_int}
use ai_website_builder.Cache.{
  MemEntry, MemCache, get, set, delete, set_nx, incr, sweep, sweep_entries, get_entry, set_absent,
  incr_found,
}
use ai_website_builder.Cache.Spec.{Call, gets, sets, deletes, sets_nx, incrs, sweeps, step}
use ai_website_builder.Cache.View.{get_entry_held}
use text.Mathlib.TextPositions.{eq_refl}

-- A call that neither frees nor overwrites the key by force.
abbrev pub LeavesAlone : String → Call → Type 0
LeavesAlone k (sets j v ttl) = (k == j) ≡ false
LeavesAlone k (deletes j) = (k == j) ≡ false
LeavesAlone k _ = Unit

unfoldable pub after : ℕ → MemCache → List (ℕ × Call) → MemCache
after t c [] = c
after t c ((d, call) ∷ calls) = after (t + d) (step (t + d) call c).1 calls

abbrev pub elapsed : List (ℕ × Call) → ℕ
elapsed [] = 0
elapsed ((d, call) ∷ calls) = d + elapsed calls

-- The key has an entry that lives until `until` at least.
abbrev IsHeld : String → ℕ → MemCache → Type 0
IsHeld k until c = (e : MemEntry) × (lookup k c.m ≡ some e) × (until ≤ e.expires_at)

lookup-sweep_live :
    (now : ℕ) (k : String) (e : MemEntry) (m : Dict MemEntry)
    → lookup k m ≡ some e
    → now ≤ e.expires_at
    → lookup k (sweep_entries now m) ≡ some e
unfolding lookup sweep_entries
lookup-sweep_live now k e [] h b = h
lookup-sweep_live now k e ((j, d) ∷ m) h b = ground (arith, eq_iff j k, lookup-sweep_live now k e m)

get_entry-IsHeld :
    (now until : ℕ) (j k : String) (c : MemCache)
    → now ≤ until
    → IsHeld k until c
    → IsHeld k until (get_entry now j c).1
unfolding get_entry
get_entry-IsHeld now until j k c b (e, h, u) =
    (e, ground (arith, lookup-remove j k c.m, eq_iff j k), u)

insert-IsHeld :
    (until : ℕ) (j k : String) (d : MemEntry) (c : MemCache)
    → (j == k) ≡ false
    → IsHeld k until c
    → IsHeld k until (record { m = insert j d c.m })
insert-IsHeld until j k d c ne (e, h, u) = (e, rw (lookup-insert j k d c.m, ne) h, u)

-- What `get` finds under a held key is at hand as a record of facts.
record Found (until : ℕ) (j k : String) (g : Option MemEntry × MemCache) : Type 0 where
  held : IsHeld k until g.1
  missing : g.0 ≡ none → (j == k) ≡ false
  present : (d : MemEntry) → g.0 ≡ some d → (j == k) ≡ true → until ≤ d.expires_at

get_entry-Found :
    (now until : ℕ) (j k : String) (c : MemCache)
    → now ≤ until
    → IsHeld k until c
    → Found until j k (get_entry now j c)
get_entry-Found now until j k c b (e, h, u) = record {
  held = get_entry-IsHeld now until j k c b (e, h, u);
  missing = λ n. elim (Bool-cases (j == k)) [ inl same ↦ cc (at_key same, n) | inr other ↦ other ];
  present = λ d p same. let q = at_key same in ground (arith, q, p);
}
  where
    at_key : (j == k) ≡ true → (get_entry now j c).0 ≡ some e
    at_key same = rw ((eq_iff j k).0 same) (ap (λ g. g.0) (get_entry_held now until k c e b h u))

set_absent-IsHeld :
    (now until : ℕ) (j k v : String) (ttl : ℕ) (g : Option MemEntry × MemCache)
    → Found until j k g
    → IsHeld k until (set_absent now j v ttl g).1
unfolding set_absent
set_absent-IsHeld now until j k v ttl (none, c) f =
    insert-IsHeld until j k _ c (f.missing refl) f.held
set_absent-IsHeld now until j k v ttl (some d, c) f = f.held

incr_found-IsHeld :
    (now until : ℕ) (j k : String) (ttl : ℕ) (g : Option MemEntry × MemCache)
    → Found until j k g
    → IsHeld k until (incr_found now j ttl g).1
unfolding incr_found
incr_found-IsHeld now until j k ttl (none, c) f =
    insert-IsHeld until j k _ c (f.missing refl) f.held
incr_found-IsHeld now until j k ttl (some d, c) f = elim (Bool-cases (j == k)) [
  | inl same ↦ (
    record d { value = format_int (increment (parse_int d.value)) },
    rw (lookup-insert j k _ c.m, same) refl,
    f.present d refl same,
  )
  | inr other ↦ insert-IsHeld until j k _ c other f.held
]

-- Until the entry expires, no call but one that frees the key takes it away.
step-IsHeld :
    (now until : ℕ) (k : String) (call : Call) (c : MemCache)
    → LeavesAlone k call
    → now ≤ until
    → IsHeld k until c
    → IsHeld k until (step now call c).1
unfolding get set delete set_nx incr sweep
step-IsHeld now until k (gets j) c a b held = get_entry-IsHeld now until j k c b held
step-IsHeld now until k (sets j v ttl) c a b held =
    insert-IsHeld until j k _ c (ground (arith, a, eq_iff j k, eq_iff k j)) held
step-IsHeld now until k (deletes j) c a b (e, h, u) =
    (e, ground (arith, a, lookup-remove j k c.m, eq_iff j k, eq_iff k j), u)
step-IsHeld now until k (sets_nx j v ttl) c a b held =
    set_absent-IsHeld now until j k v ttl _ (get_entry-Found now until j k c b held)
step-IsHeld now until k (incrs j ttl) c a b held =
    incr_found-IsHeld now until j k ttl _ (get_entry-Found now until j k c b held)
step-IsHeld now until k sweeps c a b (e, h, u) =
    (e, lookup-sweep_live now k e c.m h (omega arith), u)

after-IsHeld :
    (t until : ℕ) (k : String) (calls : List (ℕ × Call)) (c : MemCache)
    → All (λ call. LeavesAlone k call.1) calls
    → t + elapsed calls ≤ until
    → IsHeld k until c
    → IsHeld k until (after t c calls)
unfolding after
after-IsHeld t until k [] c a b held = held
after-IsHeld t until k ((d, call) ∷ calls) c a b held =
    after-IsHeld (t + d) until k calls _ a.1 (omega arith)
      (step-IsHeld (t + d) until k call c a.0 (omega arith) held)

set_absent-takes :
    (now : ℕ) (k v : String) (ttl : ℕ) (g : Option MemEntry × MemCache)
    → (set_absent now k v ttl g).0 ≡ true
    → IsHeld k (now + ttl) (set_absent now k v ttl g).1
unfolding set_absent
set_absent-takes now k v ttl (none, c) h = (
  record { value = v; expires_at = now + ttl },
  rw (lookup-insert k k _ c.m, eq_refl k) refl,
  omega arith,
)
set_absent-takes now k v ttl (some d, c) h = cc

set_nx-takes :
    (now : ℕ) (k v : String) (ttl : ℕ) (c : MemCache)
    → (set_nx now k v ttl c).0 ≡ true
    → IsHeld k (now + ttl) (set_nx now k v ttl c).1
unfolding set_nx
set_nx-takes now k v ttl c h = set_absent-takes now k v ttl _ h

set_nx_held :
    (now until : ℕ) (k v : String) (ttl : ℕ) (c : MemCache)
    → now ≤ until
    → IsHeld k until c
    → (set_nx now k v ttl c).0 ≡ false
unfolding set_nx
set_nx_held now until k v ttl c b (e, h, u) =
    rw (get_entry_held now until k c e b h u, set_absent) refl

-- A lock that was acquired is acquired by nobody else before it is freed or its time is over,
-- whatever other calls and janitor passes come in between.
pub set_nx-excludes :
    (t ttl : ℕ) (k v w : String) (calls : List (ℕ × Call)) (ttl' : ℕ) (c : MemCache)
    → (set_nx t k v ttl c).0 ≡ true
    → All (λ call. LeavesAlone k call.1) calls
    → elapsed calls ≤ ttl
    → (set_nx (t + elapsed calls) k w ttl' (after t (set_nx t k v ttl c).1 calls)).0 ≡ false
set_nx-excludes t ttl k v w calls ttl' c h a b =
    set_nx_held _ (t + ttl) k w ttl' _ (omega arith)
      (after-IsHeld t (t + ttl) k calls _ a (omega arith) (set_nx-takes t k v ttl c h))
